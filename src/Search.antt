-- ===== src/Search.antt =====
-- frontend/src/hooks/useSearchFilter.ts. `toLowerCase`, whose table is Unicode's, is a parameter.
use kafka_ui.Base.{◌≡◌, ◌↔◌, refl, Bool, true, [], Text, includes, Occurs, includes_iff}

module _ (to_lower_case : Text → Text) where
  -- The test of an item, of which `accessor` gives the text.
  unfoldable pub is_match : Text → Text → Bool
  is_match search text = includes (to_lower_case text) (to_lower_case search)

  -- An item is shown exactly if what was typed stands somewhere in its text, both in lower case; with
  -- nothing typed, every item is.
  is_match_iff :
      (search text : Text)
      → to_lower_case [] ≡ []
      → ((is_match search text ≡ true) ↔ Occurs (to_lower_case search) (to_lower_case text))
        × (is_match [] text ≡ true)
  unfolding is_match
  is_match_iff search text e = (
    includes_iff (to_lower_case text) (to_lower_case search),
    rw e ((includes_iff (to_lower_case text) []).1 ([], to_lower_case text, refl)),
  )
