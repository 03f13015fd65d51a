-- ===== src/ConsumerGroups/Laws.antt =====
-- What the mutation of ConsumerGroupDetailPage.tsx sends.
use kafka_ui.Base.{
  ◌≡◌, ◌⊎◌, inl, inr, refl, Bool, true, not, ◌&&◌, List, [], ◌∷◌, All, All-get_elem?, map,
  get_elem?, if_elim, option_elim, arith, Text, codes, truthy,
}
use kafka_ui.Api.Errors.{resolved, rejected}
use kafka_ui.Api.Query.{Query, loading, failed, loaded, is_loaded, IsGiven}
use kafka_ui.Api.Routes.{Call, groups_reset}
use kafka_ui.ConsumerGroups.{
  ConsumerGroupTopicOffset, ConsumerGroupDetail, GroupPage, initial_group_page, available_topics,
  reset_choices, GroupEvent, reloaded, fetched, reset_opened, reset_closed, topic_chosen,
  reset_to_chosen, reset_clicked, reset_settled, reset_settles, in_reset, act, run, opened,
}

abbrev pub IsChoice : Text → Type 0
IsChoice v = (v ≡ codes "earliest") ⊎ (v ≡ codes "latest")

reset_choices-IsChoice : All IsChoice reset_choices
reset_choices-IsChoice = (inl refl, (inr refl, tt))

-- `IsListed` holds of the topics that the server has listed for the group.
module _ (cluster group : Text) (can_reset_offsets : Bool) (IsListed : Text → Type 0) where
  abbrev pub IsGivenGroup : ConsumerGroupDetail → Type 0
  IsGivenGroup g = All (λ (o : ConsumerGroupTopicOffset). IsListed o.topic) g.offsets

  abbrev pub IsGivenGroupEvent : GroupEvent → Type 0
  IsGivenGroupEvent (fetched (resolved g)) = IsGivenGroup g
  IsGivenGroupEvent _ = Unit

  abbrev pub IsReset : Call → Type 0
  IsReset (groups_reset c g d) =
      (can_reset_offsets ≡ true)
      × (c ≡ cluster)
      × (g ≡ group)
      × (truthy d.topic ≡ true)
      × IsListed d.topic
      × IsChoice d.reset_to
  IsReset _ = ⊥

  topics-IsListed :
      (os : List ConsumerGroupTopicOffset)
      → All (λ (o : ConsumerGroupTopicOffset). IsListed o.topic) os
      → All IsListed (map (λ (o : ConsumerGroupTopicOffset). o.topic) os)
  topics-IsListed [] h = tt
  topics-IsListed (o ∷ os) h = (h.0, topics-IsListed os h.1)

  available_topics-IsListed :
      (v : Query ConsumerGroupDetail) → IsGiven IsGivenGroup v → All IsListed (available_topics v)
  available_topics-IsListed loading h = tt
  available_topics-IsListed (failed e) h = tt
  available_topics-IsListed (loaded g) h = topics-IsListed g.offsets h

  abbrev Keeps : GroupPage → Type 0
  Keeps p =
      IsGiven IsGivenGroup p.view
      × (truthy p.reset_topic ≡ true → IsListed p.reset_topic)
      × IsChoice p.reset_to
      × All IsReset p.calls

  act-Keeps :
      (p : GroupPage) (e : GroupEvent)
      → IsGivenGroupEvent e
      → Keeps p
      → Keeps (act cluster group can_reset_offsets p e)
  unfolding act reset_settles
  act-Keeps p reloaded g h = (tt, h.1, h.2, h.3)
  act-Keeps p (fetched (resolved d)) g h = (g, h.1, h.2, h.3)
  act-Keeps p (fetched (rejected e)) g h = (tt, h.1, h.2, h.3)
  act-Keeps p reset_opened g h =
      if_elim Keeps (can_reset_offsets && is_loaded p.view) (λ _. h) (λ _. h)
  act-Keeps p reset_closed g h =
      if_elim Keeps (in_reset cluster group can_reset_offsets p) (λ _. h) (λ _. h)
  act-Keeps p (topic_chosen i) g h =
      if_elim Keeps (in_reset cluster group can_reset_offsets p)
        (λ _.
          option_elim Keeps (get_elem? (available_topics p.view) i) p _ (λ _. h)
            (λ t at.
              let listed =
                All-get_elem? IsListed (available_topics p.view) i t
                  (available_topics-IsListed p.view h.0) at in
              (h.0, (λ _. listed), h.2, h.3)))
        (λ _. h)
  act-Keeps p (reset_to_chosen i) g h =
      if_elim Keeps (in_reset cluster group can_reset_offsets p)
        (λ _.
          option_elim Keeps (get_elem? reset_choices i) p _ (λ _. h)
            (λ v at.
              (h.0, h.1, All-get_elem? IsChoice reset_choices i v reset_choices-IsChoice at, h.3)))
        (λ _. h)
  act-Keeps p reset_clicked g h =
      if_elim Keeps
        (in_reset cluster group can_reset_offsets p && (truthy p.reset_topic && not p.resetting))
        (λ t.
          let named : truthy p.reset_topic ≡ true = ground arith in
          (h.0, h.1, h.2, ((ground arith, refl, refl, named, h.1 named, h.2), h.3)))
        (λ _. h)
  act-Keeps p (reset_settled (resolved u)) g h = if_elim Keeps p.resetting (λ _. h) (λ _. h)
  act-Keeps p (reset_settled (rejected e)) g h = if_elim Keeps p.resetting (λ _. h) (λ _. h)

  run-Keeps :
      (p : GroupPage) (es : List GroupEvent)
      → All IsGivenGroupEvent es
      → Keeps p
      → Keeps (run cluster group can_reset_offsets p es)
  unfolding run
  run-Keeps p [] g h = h
  run-Keeps p (e ∷ es) g h =
      run-Keeps (act cluster group can_reset_offsets p e) es g.1 (act-Keeps p e g.0 h)

  -- Whatever the user does and the server answers, the page's mutation only resets offsets of its group, for a
  -- user with the right to, for a topic that the server has once listed for the group, to the
  -- earliest or the latest offset.
  pub opened-IsReset :
      (es : List GroupEvent)
      → All IsGivenGroupEvent es
      → All IsReset (opened cluster group can_reset_offsets es).calls
  opened-IsReset es g = (run-Keeps initial_group_page es g (tt, (λ e. absurd (cc)), inl refl, tt)).3
