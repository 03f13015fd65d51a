-- ===== src/Nav/Tests.antt =====
-- The links on concrete paths.
use kafka_ui.Base.{
  ◌≡◌, ◌+◌, ◌↔◌, refl, true, some, List, [], ◌∷◌, map, keep, length, Text, codes, text_eq,
  starts_with, arith, codes,
}
use kafka_ui.Nav.{Link, main_links, cluster_links, section_links, cluster_link}
use kafka_ui.Nav.Laws.{one_marked}
use kafka_ui.Nav.Tabs.{is_messages, base_path, messages_href, is_messages_iff}

abbrev marked : List Link → List Text
marked ls = map (λ (l : Link). l.label) (keep (λ (l : Link). l.is_active) ls)

-- The page of users marks two links.
marked_links :
    (marked (main_links true true (codes "/settings/users"))
      ≡ codes "Settings" ∷ codes "Users" ∷ [])
    × (marked (main_links true true (codes "/clusters/a/topics")) ≡ [])
    × (marked (section_links (codes "/clusters/a/topics/t/messages") (some (codes "a")))
        ≡ codes "Topics" ∷ [])
    × (marked (
          cluster_links
            (codes "/clusters/a")
            (some (codes "a"))
            (some (codes "b" ∷ codes "a" ∷ [])))
        ≡ codes "a" ∷ [])
unfolding main_links section_links cluster_links cluster_link starts_with text_eq
marked_links = (refl, refl, refl, refl)

one_marked_example :
    length (
        keep
          (λ l. l.is_active)
          (cluster_links
            (codes "/clusters/a/acl")
            (some (codes "a"))
            (some (codes "b" ∷ codes "a" ∷ []))))
      + length
          (keep (λ l. l.is_active) (section_links (codes "/clusters/a/acl") (some (codes "a"))))
    ≡ 1
one_marked_example =
    one_marked (codes "/clusters/a/acl") (codes "a") (codes "b" ∷ []) [] refl
      ((λ e. absurd (ground arith)), tt) tt

is_messages_iff_example :
    (is_messages (messages_href (codes "c") (codes "messages")) ≡ true)
    × ((is_messages (base_path (codes "c") (codes "messages")) ≡ true)
        ↔ (codes "messages" ≡ codes "messages"))
is_messages_iff_example = is_messages_iff (codes "c") (codes "messages") refl
