-- ===== src/Topics/Detail/Laws.antt =====
-- What the mutation of TopicDetailPage.tsx sends.
use kafka_ui.Base.{
  ◌≡◌, refl, Bool, true, false, not, ◌&&◌, List, [], ◌∷◌, All, if◌then◌else◌, if_elim, arith, Text,
}
use kafka_ui.Api.Errors.{resolved, rejected}
use kafka_ui.Api.Query.{Query, loading, failed, loaded, is_loaded, IsGiven}
use kafka_ui.Api.Routes.{Call, topics_delete}
use kafka_ui.Topics.Detail.{
  TopicDetail, TopicPage, initial_topic_page, TopicEvent, reloaded, fetched, delete_clicked,
  confirmed, cancelled, settled, is_deletable, settles, step, run, opened,
}

-- `IsDeletable` is what holds once the server has answered that the topic is not internal.
module _ (cluster topic : Text) (can_delete_topics : Bool) (IsDeletable : Type 0) where
  abbrev pub IsGivenTopicEvent : TopicEvent → Type 0
  IsGivenTopicEvent (fetched (resolved t)) = t.internal ≡ false → IsDeletable
  IsGivenTopicEvent _ = Unit

  abbrev IsGivenTopic : TopicDetail → Type 0
  IsGivenTopic t = t.internal ≡ false → IsDeletable

  abbrev pub IsDeletion : Call → Type 0
  IsDeletion c = (c ≡ topics_delete cluster topic) × (can_delete_topics ≡ true) × IsDeletable

  -- An open dialog has been opened for a topic that may be deleted.
  abbrev Keeps : TopicPage → Type 0
  Keeps p =
      IsGiven IsGivenTopic p.view
      × (p.confirm_open ≡ true → (can_delete_topics ≡ true) × IsDeletable)
      × All IsDeletion p.calls

  given_deletable :
      (v : Query TopicDetail) → IsGiven IsGivenTopic v → is_deletable v ≡ true → IsDeletable
  given_deletable loading g h = absurd (cc)
  given_deletable (failed e) g h = absurd (cc)
  given_deletable (loaded t) g h = g (ground arith)

  step-Keeps :
      (p : TopicPage) (e : TopicEvent)
      → IsGivenTopicEvent e
      → Keeps p
      → Keeps (step cluster topic can_delete_topics p e)
  unfolding step settles
  step-Keeps p reloaded g h = (tt, h.1, h.2)
  step-Keeps p (fetched (resolved t)) g h = (g, h.1, h.2)
  step-Keeps p (fetched (rejected e)) g h = (tt, h.1, h.2)
  step-Keeps p delete_clicked g h =
      if_elim Keeps
        (can_delete_topics && (is_deletable p.view && (not p.confirm_open && not p.deleting)))
        (λ t. (h.0, (λ _. (ground arith, given_deletable p.view h.0 (ground arith))), h.2)) (λ _. h)
  step-Keeps p confirmed g h =
      if_elim Keeps (is_loaded p.view && p.confirm_open)
        (λ t.
          let (may, deletable) = h.1 (ground arith) in
          (h.0, (λ e. absurd (cc)), ((refl, may, deletable), h.2)))
        (λ _. h)
  step-Keeps p cancelled g h =
      if_elim Keeps (is_loaded p.view) (λ _. (h.0, (λ e. absurd (cc)), h.2)) (λ _. h)
  step-Keeps p (settled (resolved u)) g h = if_elim Keeps p.deleting (λ _. h) (λ _. h)
  step-Keeps p (settled (rejected e)) g h = if_elim Keeps p.deleting (λ _. h) (λ _. h)

  run-Keeps :
      (p : TopicPage) (es : List TopicEvent)
      → All IsGivenTopicEvent es
      → Keeps p
      → Keeps (run cluster topic can_delete_topics p es)
  unfolding run
  run-Keeps p [] g h = h
  run-Keeps p (e ∷ es) g h =
      run-Keeps (if p.left then p else step cluster topic can_delete_topics p e) es g.1
        (if_elim Keeps p.left (λ _. h) (λ _. step-Keeps p e g.0 h))

  -- The page's mutation sends nothing but deletions of its topic, for a user with the right to, and
  -- only if the server has once answered that the topic is not internal. The GET of the topic's
  -- details is no mutation.
  pub opened-IsDeletion :
      (es : List TopicEvent)
      → All IsGivenTopicEvent es
      → All IsDeletion (opened cluster topic can_delete_topics es).calls
  opened-IsDeletion es g = (run-Keeps initial_topic_page es g (tt, (λ e. absurd (cc)), tt)).2
