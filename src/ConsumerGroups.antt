-- ===== src/ConsumerGroups.antt =====
-- frontend/src/pages/ConsumerGroupDetailPage.tsx: the dialog that resets a group's offsets, for a
-- user that may reset them or not.
pub mod Laws
pub mod Tests
use kafka_ui.Base.{
  ℕ, ◌+◌, Bool, true, false, not, ◌&&◌, Option, none, some, List, [], ◌∷◌, map, get_elem?,
  if◌then◌else◌, Text, codes, truthy, ℤ,
}
use kafka_ui.Api.Bodies.{ResetOffsetsRequest}
use kafka_ui.Api.Errors.{Thrown, Settled, resolved, rejected}
use kafka_ui.Api.Query.{Query, loading, failed, loaded, is_loaded}
use kafka_ui.Api.Routes.{Call, groups_reset}

pub record ConsumerGroupTopicOffset : Type 0 where
  pub topic : Text
  pub total_lag : ℤ

-- The members and the partitions are only shown.
pub record ConsumerGroupDetail : Type 0 where
  pub name : Text
  pub state : Text
  pub offsets : List ConsumerGroupTopicOffset

-- `calls` are the resets sent, the last one first; the GETs of the group are not recorded.
pub record GroupPage : Type 0 where
  pub view : Query ConsumerGroupDetail
  pub reset_open : Bool
  pub reset_topic : Text
  pub reset_to : Text
  pub resetting : Bool
  pub reset_error : Option Thrown
  pub calls : List Call
  pub refreshes : ℕ

abbrev pub initial_group_page : GroupPage
initial_group_page = record {
  view = loading;
  reset_open = false;
  reset_topic = [];
  reset_to = codes "earliest";
  resetting = false;
  reset_error = none;
  calls = [];
  refreshes = 0;
}

-- The items of the two lists to choose from.
abbrev pub available_topics : Query ConsumerGroupDetail → List Text
available_topics loading = []
available_topics (failed e) = []
available_topics (loaded g) = map (λ (o : ConsumerGroupTopicOffset). o.topic) g.offsets

abbrev pub reset_choices : List Text
reset_choices = codes "earliest" ∷ codes "latest" ∷ []

pub data GroupEvent : Type 0 where
  reloaded : GroupEvent
  fetched : Settled ConsumerGroupDetail → GroupEvent
  reset_opened reset_closed : GroupEvent
  topic_chosen reset_to_chosen : ℕ → GroupEvent
  reset_clicked : GroupEvent
  reset_settled : Settled (Unit {0}) → GroupEvent

unfoldable pub reset_settles : Settled (Unit {0}) → GroupPage → GroupPage
reset_settles (resolved u) p = record p {
  resetting = false;
  reset_open = false;
  refreshes = p.refreshes + 1;
}
reset_settles (rejected e) p = record p { resetting = false; reset_error = some e }

module _ (cluster group : Text) (can_reset_offsets : Bool) where
  -- The dialog is part of a page that shows the group.
  abbrev pub in_reset : GroupPage → Bool
  in_reset p = can_reset_offsets && (is_loaded p.view && p.reset_open)

  unfoldable pub act : GroupPage → GroupEvent → GroupPage
  act p reloaded = record p { view = loading }
  act p (fetched (resolved g)) = record p { view = loaded g }
  act p (fetched (rejected e)) = record p { view = failed e }
  act p reset_opened =
      if can_reset_offsets && is_loaded p.view then record p { reset_open = true } else p
  act p reset_closed = if in_reset p then record p { reset_open = false } else p
  act p (topic_chosen i) =
      if in_reset p
      then elim (get_elem? (available_topics p.view) i) [
        | none ↦ p
        | some t ↦ record p { reset_topic = t }
      ]
      else p
  act p (reset_to_chosen i) =
      if in_reset p
      then elim (get_elem? reset_choices i) [ none ↦ p | some v ↦ record p { reset_to = v } ]
      else p
  act p reset_clicked =
      if in_reset p && (truthy p.reset_topic && not p.resetting)
      then record p {
        resetting = true;
        reset_error = none;
        calls =
            groups_reset cluster group (record { topic = p.reset_topic; reset_to = p.reset_to })
            ∷ p.calls;
      }
      else p
  act p (reset_settled r) = if p.resetting then reset_settles r p else p

  unfoldable pub run : GroupPage → List GroupEvent → GroupPage
  run p [] = p
  run p (e ∷ es) = run (act p e) es

  -- The page after some events, from when it is opened.
  abbrev pub opened : List GroupEvent → GroupPage
  opened es = run initial_group_page es
