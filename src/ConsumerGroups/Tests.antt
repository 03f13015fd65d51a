-- ===== src/ConsumerGroups/Tests.antt =====
-- The page of a consumer group on a session.
use kafka_ui.Base.{◌≡◌, ◌⊎◌, refl, inl, inr, true, List, [], ◌∷◌, All, Text, codes, pos}
use kafka_ui.Api.Errors.{resolved, rejected, error_object}
use kafka_ui.Api.Routes.{groups_reset}
use kafka_ui.ConsumerGroups.{
  ConsumerGroupDetail, GroupEvent, fetched, reset_opened, topic_chosen, reset_to_chosen,
  reset_clicked, reset_settled, reset_settles, act, run, opened,
}
use kafka_ui.ConsumerGroups.Laws.{IsReset, opened-IsReset}

abbrev group : ConsumerGroupDetail
group = record {
  name = codes "g";
  state = codes "Empty";
  offsets =
      record { topic = codes "orders"; total_lag = pos 3 }
      ∷ record { topic = codes "payments"; total_lag = pos 0 }
      ∷ [];
}

-- The dialog closes with the first reset's success, and keeps the topic for the next.
abbrev session : List GroupEvent
session =
    fetched (resolved group)
    ∷ reset_clicked
    ∷ reset_opened
    ∷ reset_clicked
    ∷ topic_chosen 1
    ∷ reset_to_chosen 1
    ∷ reset_clicked
    ∷ reset_clicked
    ∷ reset_settled (resolved tt)
    ∷ reset_clicked
    ∷ reset_opened
    ∷ reset_to_chosen 0
    ∷ reset_clicked
    ∷ reset_settled (rejected (error_object (codes "Error") (codes "group is active")))
    ∷ []

session_calls :
    (opened (codes "c") (codes "g") true session).calls
    ≡ groups_reset
        (codes "c")
        (codes "g")
        (record { topic = codes "payments"; reset_to = codes "earliest" })
      ∷ groups_reset
          (codes "c")
          (codes "g")
          (record { topic = codes "payments"; reset_to = codes "latest" })
      ∷ []
unfolding run act reset_settles
session_calls = refl

abbrev IsListed : Text → Type 0
IsListed topic = (topic ≡ codes "orders") ⊎ (topic ≡ codes "payments")

opened-IsReset_example :
    All
      (IsReset (codes "c") (codes "g") true IsListed)
      (opened (codes "c") (codes "g") true session).calls
opened-IsReset_example = opened-IsReset (codes "c") (codes "g") true IsListed session (
  (inl refl, (inr refl, tt)),
  (tt, (tt, (tt, (tt, (tt, (tt, (tt, (tt, (tt, (tt, (tt, (tt, (tt, tt))))))))))))),
)
