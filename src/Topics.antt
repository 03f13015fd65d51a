-- ===== src/Topics.antt =====
-- frontend/src/pages/TopicsPage.tsx.
pub mod Laws
pub mod Detail
pub mod Tests
use kafka_ui.Base.{
  ℕ, Bool, true, false, Option, none, some, List, if◌then◌else◌, Text, truthy, ℤ, pos, negsuc, zero,
  suc, parse_int, [],
}
use kafka_ui.Api.Bodies.{CreateTopicRequest}
use kafka_ui.Api.Errors.{Settled, resolved}
use kafka_ui.Api.Routes.{Call, topics_create, topics_delete}
use kafka_ui.ListPage
use kafka_ui.ListPage.{Shape, Rights, Page, Event, initial_page}
use kafka_ui.Search.{is_match}

pub record TopicInfo : Type 0 where
  pub name : Text
  pub partitions : ℕ
  pub replicas : ℕ
  pub internal : Bool

pub data TopicEdit : Type 0 where
  name_typed partitions_typed replicas_typed : Text → TopicEdit

-- `parseInt(e.target.value) || 1`
unfoldable pub count_of : Text → ℤ
count_of value = elim (parse_int value) [
  | none ↦ pos 1
  | some (pos zero) ↦ pos 1
  | some (pos (suc n)) ↦ pos (suc n)
  | some (negsuc n) ↦ negsuc n
]

abbrev pub new_topic : CreateTopicRequest
new_topic = record { name = []; partitions = some (pos 1); replicas = some (pos 1) }

unfoldable pub edit_topic : TopicEdit → CreateTopicRequest → CreateTopicRequest
edit_topic (name_typed v) d = record d { name = v }
edit_topic (partitions_typed v) d = record d { partitions = some (count_of v) }
edit_topic (replicas_typed v) d = record d { replicas = some (count_of v) }

-- The row's button is there for topics that are not internal.
unfoldable pub topic_target : TopicInfo → Option Text
topic_target t = if t.internal then none else if truthy t.name then some t.name else none

module _ (to_lower_case : Text → Text) (cluster : Text) where
  unfoldable pub topics_page : Shape TopicInfo CreateTopicRequest TopicEdit Text
  topics_page = record {
    matches = λ search t. is_match to_lower_case search t.name;
    initial = new_topic;
    edit = edit_topic;
    is_complete = λ d. truthy d.name;
    submit = λ d. resolved (topics_create cluster d);
    target = topic_target;
    delete = λ name. topics_delete cluster name;
    waits = false;
  }

  abbrev pub act :
      Rights
      → Page TopicInfo CreateTopicRequest Text
      → Event TopicInfo TopicEdit
      → Page TopicInfo CreateTopicRequest Text
  act r p e = ListPage.act topics_page r p e

  -- The page after some events, from when it is opened.
  abbrev pub run :
      Rights → List (Event TopicInfo TopicEdit) → Page TopicInfo CreateTopicRequest Text
  run r es = ListPage.run topics_page r (initial_page topics_page) es
