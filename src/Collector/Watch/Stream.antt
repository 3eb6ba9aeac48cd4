-- ===== src/Collector/Watch/Stream.antt =====
-- internal/collector/watch.go: the events of a watch stream.
pub mod Laws
use kube_insight.Prelude.{
  String, ℕ, ◌+◌, Bool, true, false, not, ◌&&◌, ◌||◌, Option, none, some, List, [], ◌∷◌, ◌==◌,
  if◌then◌else◌, is_some, leb, ltb,
}
use kube_insight.Prelude.Result.{Result, ok, err}
use kube_insight.Json.{Value, Fields, end, field, str, obj, get, get_opt, as_obj, str_or_empty}
use kube_insight.Storage.Memory.{watch, bookmark}
use kube_insight.Ingest.Pipeline.{Ingested}
use kube_insight.Collector.Watch.{
  WatchError, watch_closed, WatchSummary, add_ingest, Options, Backend, End, waiting, returned,
  failed, Watched, end_of, ingest_list, upsert_offset,
}
use kube_insight.Collector.Watch.Reconcile.{Answer, refused, answered}

-- The type of an event that carries an object.
pub data EventType : Type 0 where
  added modified deleted bookmarked : EventType

abbrev pub type_name : EventType → String
type_name added = "ADDED"
type_name modified = "MODIFIED"
type_name deleted = "DELETED"
type_name bookmarked = "BOOKMARK"

-- An event: an error that the server sends, an object that is not unstructured, or an object.
pub data Event : Type 0 where
  error_event : WatchError → Event
  opaque : Event
  object_event : EventType → Fields → Event

-- What comes next in the loop of watchResourceStream: whether the clock is past the deadline, and
-- what the select then finds.
pub data Happening : Type 0 where
  received : Event → Happening
  channel_closed : Happening
  cancelled : WatchError → Happening

pub record Round : Type 0 where
  pub late : Bool
  pub happening : Happening

-- GetResourceVersion
abbrev pub resource_version_of : Fields → String
resource_version_of object =
    str_or_empty (get_opt "resourceVersion" (as_obj (get "metadata" object)))

-- watchEventJSON, before it is encoded.
unfoldable pub watch_event : EventType → Fields → Fields
watch_event type object = field "type" (str (type_name type)) (field "object" (obj object) end)

abbrev pub is_bookmark : EventType → Bool
is_bookmark bookmarked = true
is_bookmark _ = false

abbrev pub is_delete : EventType → ℕ
is_delete deleted = 1
is_delete _ = 0

-- The summary at the resourceVersion of an object, where it has one.
abbrev pub seen : Fields → WatchSummary → WatchSummary
seen object summary =
    if not (resource_version_of object == "")
    then record summary { resource_version = resource_version_of object }
    else summary

module _ {S : Type 0} (b : Backend S) (o : Options) where
  unfoldable pub handle_object : EventType → Fields → WatchSummary → S → Watched S
  handle_object type object summary s =
      let ingested = ingest_list b o (watch_event type object) s in
      let next = record summary {
        events = summary.events + 1;
        deleted = summary.deleted + is_delete type;
        stored = summary.stored + ingested.summary.stored_observations;
        ingest = add_ingest summary.ingest ingested.summary;
      } in
      let put = upsert_offset b o summary.resource_version watch "watching" "" ingested.state in
      elim ingested.error [
        | some e ↦ record { summary = summary; state = ingested.state; end = failed (b.error_of e) }
        | none ↦ record { summary = next; state = put.0; end = end_of b o put.1 }
      ]

  unfoldable pub handle_bookmark : WatchSummary → S → Watched S
  handle_bookmark summary s =
      let next = record summary { bookmarks = summary.bookmarks + 1 } in
      let put = upsert_offset b o summary.resource_version bookmark "bookmark" "" s in
      record { summary = next; state = put.0; end = end_of b o put.1 }

  -- handleWatchEvent
  unfoldable pub handle_watch_event : Event → WatchSummary → S → Watched S
  unfolding handle_object handle_bookmark
  handle_watch_event (error_event e) summary s = record {
    summary = summary;
    state = s;
    end = failed e;
  }
  handle_watch_event opaque summary s = record { summary = summary; state = s; end = returned }
  handle_watch_event (object_event type object) summary s =
      if is_bookmark type
      then handle_bookmark (seen object summary) s
      else handle_object type object (seen object summary) s

  -- The two tests at the head of the loop.
  unfoldable pub stream_over : Bool → WatchSummary → Bool
  stream_over late summary =
      (ltb 0 o.max_events && leb o.max_events summary.events) || (is_some o.deadline && late)

  -- The loop of watchResourceStream, over what happens.
  unfoldable pub watch_rounds : List Round → WatchSummary → S → Watched S
  unfolding stream_over
  watch_rounds [] summary s = record { summary = summary; state = s; end = waiting }
  watch_rounds (r ∷ rs) summary s = elim (stream_over r.late summary) [
    | true ↦ record { summary = summary; state = s; end = returned }
    | false ↦ elim r.happening [
      | cancelled e ↦ record { summary = summary; state = s; end = failed e }
      | channel_closed ↦ record { summary = summary; state = s; end = failed watch_closed }
      | received event ↦
          let handled = handle_watch_event event summary s in
          elim handled.end [
            | waiting ↦ handled
            | failed e ↦ handled
            | returned ↦ watch_rounds rs handled.summary handled.state
          ]
    ]
  ]

  -- watchResourceStream: the client is asked for a stream from the resourceVersion of the summary.
  unfoldable pub watch_resource_stream :
      (String → Answer (List Round)) → WatchSummary → S → Watched S
  unfolding watch_rounds
  watch_resource_stream client summary s = elim (client summary.resource_version) [
    | refused e ↦ record { summary = summary; state = s; end = failed e }
    | answered rounds ↦
        let put = upsert_offset b o summary.resource_version watch "watching" "" s in
        elim put.1 [
          | some e ↦ record { summary = summary; state = put.0; end = failed (b.error_of e) }
          | none ↦ watch_rounds rounds summary put.0
        ]
  ]
