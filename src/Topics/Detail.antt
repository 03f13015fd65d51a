-- ===== src/Topics/Detail.antt =====
-- frontend/src/pages/TopicDetailPage.tsx: the button that deletes the topic, for a user that may
-- delete topics or not.
pub mod Laws
use kafka_ui.Base.{ℕ, ◌+◌, Bool, true, false, not, ◌&&◌, ◌||◌, List, [], ◌∷◌, if◌then◌else◌, Text}
use kafka_ui.Api.Errors.{Settled, resolved, rejected}
use kafka_ui.Api.Query.{Query, loading, failed, loaded, is_loaded}
use kafka_ui.Api.Routes.{Call, topics_delete}

-- The parts of the topic that decide what the page can do.
pub record TopicDetail : Type 0 where
  pub name : Text
  pub internal : Bool

-- `left` says that the page has gone to the list of topics. `calls` are the deletions sent, the last
-- one first; the GETs of the topic are not recorded.
pub record TopicPage : Type 0 where
  pub view : Query TopicDetail
  pub confirm_open : Bool
  pub deleting : Bool
  pub calls : List Call
  pub refreshes : ℕ
  pub left : Bool

abbrev pub initial_topic_page : TopicPage
initial_topic_page = record {
  view = loading;
  confirm_open = false;
  deleting = false;
  calls = [];
  refreshes = 0;
  left = false;
}

pub data TopicEvent : Type 0 where
  reloaded : TopicEvent
  fetched : Settled TopicDetail → TopicEvent
  delete_clicked confirmed cancelled : TopicEvent
  settled : Settled (Unit {0}) → TopicEvent

-- Whether the page shows a topic that can be deleted.
abbrev pub is_deletable : Query TopicDetail → Bool
is_deletable loading = false
is_deletable (failed e) = false
is_deletable (loaded t) = not t.internal

unfoldable pub settles : Settled (Unit {0}) → TopicPage → TopicPage
settles (resolved u) p = record p { deleting = false; left = true; refreshes = p.refreshes + 1 }
settles (rejected e) p = record p { deleting = false }

module _ (cluster topic : Text) (can_delete_topics : Bool) where
  unfoldable pub step : TopicPage → TopicEvent → TopicPage
  step p reloaded = record p { view = loading }
  step p (fetched (resolved t)) = record p { view = loaded t }
  step p (fetched (rejected e)) = record p { view = failed e }
  step p delete_clicked =
      if can_delete_topics && (is_deletable p.view && (not p.confirm_open && not p.deleting))
      then record p { confirm_open = true }
      else p
  step p confirmed =
      if is_loaded p.view && p.confirm_open
      then record p {
        confirm_open = false;
        deleting = true;
        calls = topics_delete cluster topic ∷ p.calls;
      }
      else p
  step p cancelled = if is_loaded p.view then record p { confirm_open = false } else p
  step p (settled r) = if p.deleting then settles r p else p

  unfoldable pub run : TopicPage → List TopicEvent → TopicPage
  run p [] = p
  run p (e ∷ es) = run (if p.left then p else step p e) es

  abbrev pub opened : List TopicEvent → TopicPage
  opened es = run initial_topic_page es
