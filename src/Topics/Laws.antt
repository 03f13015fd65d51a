-- ===== src/Topics/Laws.antt =====
-- What the mutations of TopicsPage.tsx send.
use mathlib.Core.Path.{subst}
use kafka_ui.Base.{
  zero, suc, ◌≡◌, ◌≢◌, refl, true, false, Option, none, some, List, All, Text, truthy, ℤ, pos,
  negsuc, parse_int, arith,
}
use kafka_ui.Api.Bodies.{CreateTopicRequest}
use kafka_ui.Api.Routes.{Call, topics_create, topics_delete}
use kafka_ui.ListPage.{Rights, Event}
use kafka_ui.ListPage.Sends.{Lawful, IsGivenEvent, resolved_inj, run-IsSound}
use kafka_ui.Topics.{
  TopicInfo, TopicEdit, name_typed, partitions_typed, replicas_typed, count_of, edit_topic,
  topic_target, topics_page, run,
}

-- A number, and not zero.
abbrev pub IsCount : Option ℤ → Type 0
IsCount o = (n : ℤ) × (o ≡ some n) × (n ≢ pos 0)

count_of-ne-zero : (v : Text) → count_of v ≢ pos 0
unfolding count_of
count_of-ne-zero v = go (parse_int v)
  where
    go :
        (o : Option ℤ)
        → (elim o [
          | none ↦ pos 1
          | some (pos zero) ↦ pos 1
          | some (pos (suc n)) ↦ pos (suc n)
          | some (negsuc n) ↦ negsuc n
        ])
          ≢ pos 0
    go none e = cc
    go (some (pos zero)) e = cc
    go (some (pos (suc n))) e = ground arith
    go (some (negsuc n)) e = cc

abbrev HasCounts : CreateTopicRequest → Type 0
HasCounts d = IsCount d.partitions × IsCount d.replicas

edit_topic-HasCounts :
    (x : TopicEdit) (d : CreateTopicRequest) → HasCounts d → HasCounts (edit_topic x d)
unfolding edit_topic
edit_topic-HasCounts (name_typed v) d h = h
edit_topic-HasCounts (partitions_typed v) d h = ((count_of v, refl, count_of-ne-zero v), h.1)
edit_topic-HasCounts (replicas_typed v) d h = (h.0, (count_of v, refl, count_of-ne-zero v))

topic_target_lem :
    (row : TopicInfo) (t : Text)
    → topic_target row ≡ some t
    → (row.internal ≡ false) × (row.name ≡ t)
unfolding topic_target
topic_target_lem row t at = ground arith

module _ (cluster : Text) (r : Rights) (IsDeletable : Text → Type 0) where
  -- A request of a mutation of the page, for a user with the rights `r`.
  abbrev pub IsTopicsCall : Call → Type 0
  IsTopicsCall (topics_create c d) =
      (r.creates ≡ true)
      × (c ≡ cluster)
      × (truthy d.name ≡ true)
      × IsCount d.partitions
      × IsCount d.replicas
  IsTopicsCall (topics_delete c name) = (r.deletes ≡ true) × (c ≡ cluster) × IsDeletable name
  IsTopicsCall _ = ⊥

  abbrev pub IsGivenTopic : TopicInfo → Type 0
  IsGivenTopic t = t.internal ≡ false → IsDeletable t.name

  topics_page-Lawful :
      (to_lower_case : Text → Text)
      → Lawful (topics_page to_lower_case cluster) r IsGivenTopic HasCounts IsTopicsCall
  unfolding topics_page
  topics_page-Lawful to_lower_case = record {
    initial-IsFine = ((pos 1, refl, λ e. ground arith), (pos 1, refl, λ e. ground arith));
    edit-IsFine = edit_topic-HasCounts;
    submit-IsSound = λ d c may h complete at.
        subst IsTopicsCall (resolved_inj (topics_create cluster d) c at)
          (may, refl, complete, h.0, h.1);
    delete-IsSound = λ row t given may at.
        let (visible, named) = topic_target_lem row t at in
        (may, refl, subst IsDeletable named (given visible));
  }

  -- Whatever the user does and the server answers, the page creates topics only for a user with the
  -- right to, with a name and with numbers of partitions and replicas that are not zero, and deletes
  -- only, for a user with that right, topics that the server has listed as not internal.
  pub run-IsTopicsCall :
      (to_lower_case : Text → Text) (es : List (Event TopicInfo TopicEdit))
      → All (IsGivenEvent IsGivenTopic) es
      → All IsTopicsCall (run to_lower_case cluster r es).calls
  run-IsTopicsCall to_lower_case =
      run-IsSound (topics_page to_lower_case cluster) r IsGivenTopic HasCounts IsTopicsCall
        (topics_page-Lawful to_lower_case)
