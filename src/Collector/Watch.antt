-- ===== src/Collector/Watch.antt =====
-- internal/collector/watch.go: what the watch of one resource counts, the errors that it tells apart,
-- and its way into the pipeline. The Kubernetes client, the encoding of documents and the store are
-- parameters; the errors that the client's packages recognise are flags of an error.
pub mod Reconcile
pub mod Stream
pub mod Retry
use kube_insight.Prelude.{
  String, ℕ, ◌+◌, Bool, true, false, not, ◌&&◌, ◌||◌, Option, none, some, List, [], ◌∷◌, any,
  is_empty, is_some, if◌then◌else◌,
}
use kube_insight.Prelude.Text.{to_lower}
use kube_insight.Prelude.Text.Search.{contains_text}
use kube_insight.Prelude.Result.{Result, ok, err}
use kube_insight.Json.{Fields}
use kube_insight.Core.{ResourceRef}
use kube_insight.Kubeapi.{ResourceInfo}
use kube_insight.Filter.{Filter}
use kube_insight.Profile.{Rule}
use kube_insight.Extractor.{Registry}
use kube_insight.Storage.Memory.{IngestionOffset, OffsetEvent}
use kube_insight.Ingest.Pipeline.{
  Summary, FilterChains, Pipeline, Ingested, ingest_json, no_summary,
}

-- An error: whether it is errWatchClosed, io.EOF, the end of the context, 410 Gone, or one of the
-- answers of a server that is busy, and its text.
pub record WatchError : Type 0 where
  pub closed : Bool
  pub eof : Bool
  pub cancelled : Bool
  pub gone : Bool
  pub busy : Bool
  pub text : String

abbrev pub plain : String → WatchError
plain text = record {
  closed = false;
  eof = false;
  cancelled = false;
  gone = false;
  busy = false;
  text = text;
}

abbrev pub watch_closed : WatchError
watch_closed = record (plain "watch channel closed") { closed = true }

-- isResourceVersionExpired
unfoldable pub is_resource_version_expired : WatchError → Bool
is_resource_version_expired e =
    e.gone
    || any (λ part. contains_text part (to_lower e.text))
        ("too old" ∷ "expired" ∷ "410 gone" ∷ "status 410" ∷ "status code 410" ∷ [])

-- isTransientWatchStreamError
unfoldable pub is_transient : WatchError → Bool
is_transient e =
    e.closed
    || e.eof
    || e.busy
    || any (λ token. contains_text token (to_lower e.text))
        ("unable to decode an event from the watch stream" ∷ "stream error:" ∷ "internal_error"
          ∷ "http2:" ∷ "received from peer" ∷ "connection reset by peer" ∷ "broken pipe"
          ∷ "unexpected eof" ∷ "server closed" ∷ "use of closed network connection"
          ∷ "transport is closing" ∷ "client connection lost" ∷ [])

-- isGracefulWatchStop, with a deadline or without one.
unfoldable pub is_graceful : Option ℕ → WatchError → Bool
is_graceful deadline e = e.cancelled || (e.closed && is_some deadline)

pub record WatchSummary : Type 0 where
  pub listed : ℕ
  pub events : ℕ
  pub stored : ℕ
  pub bookmarks : ℕ
  pub deleted : ℕ
  pub reconciled_deleted : ℕ
  pub unknown_visibility : ℕ
  pub relists : ℕ
  pub retries : ℕ
  pub watch_errors : ℕ
  pub latest_objects : ℕ
  pub resource_version : String
  pub ingest : Summary

-- addIngest
unfoldable pub add_ingest : Summary → Summary → Summary
add_ingest total next = record {
  observations = total.observations + next.observations;
  stored_observations = total.stored_observations + next.stored_observations;
  modified_observations = total.modified_observations + next.modified_observations;
  discarded_changes = total.discarded_changes + next.discarded_changes;
  discarded_resources = total.discarded_resources + next.discarded_resources;
  facts = total.facts + next.facts;
  edges = total.edges + next.edges;
  changes = total.changes + next.changes;
}

-- What WatchOptions says of the pipeline: nil filters and extractors are none.
pub record Overrides : Type 0 where
  pub filters : Option (List Filter)
  pub filter_chains : FilterChains
  pub extractors : Option Registry
  pub profile_rules : List Rule

-- The options of a watch. MaxRetries below 0 is none, and MaxEvents below 1 is 0.
pub record Options : Type 0 where
  pub cluster_id : String
  pub info : ResourceInfo
  pub namespace : String
  pub max_events : ℕ
  pub max_retries : Option ℕ
  pub deadline : Option ℕ
  pub overrides : Overrides

-- The store behind the watch, with DefaultPipeline for it; the interfaces that a store need not have;
-- json.Marshal, as the decoder of the pipeline reads its output; the time in a state of the store; and
-- what an error of the store or of the pipeline is for the code that tells errors apart.
pub record Backend (S : Type 0) : Type 0 where
  pub default_pipeline : Pipeline S
  pub latest_refs : Option (String → ResourceInfo → String → S → Result (List ResourceRef))
  pub put_offset : Option (IngestionOffset → S → S × Option String)
  pub encode : Fields → Result Fields
  pub now : S → ℕ
  pub error_of : String → WatchError

-- How a call stands: it waits for the client, it has returned, or it has returned an error.
pub data End : Type 0 where
  waiting returned : End
  failed : WatchError → End

pub record Watched (S : Type 0) : Type 0 where
  pub summary : WatchSummary
  pub state : S
  pub end : End

module _ {S : Type 0} (b : Backend S) (o : Options) where
  abbrev pub end_of : Option String → End
  end_of none = returned
  end_of (some e) = failed (b.error_of e)

  -- The pipeline of ingestList.
  unfoldable pub pipeline_for : Pipeline S
  pipeline_for =
      let chains = o.overrides.filter_chains in
      let p = b.default_pipeline in
      let configured = is_some chains.default || not (is_empty chains.by_name) in
      record p {
        cluster_id = o.cluster_id;
        filters =
            if configured
            then elim chains.default [ none ↦ [] | some fs ↦ fs ]
            else elim o.overrides.filters [ none ↦ p.filters | some fs ↦ fs ];
        filter_chains = if configured then chains else p.filter_chains;
        extractors = elim o.overrides.extractors [ none ↦ p.extractors | some r ↦ r ];
        profile_rules =
            if is_empty o.overrides.profile_rules
            then p.profile_rules
            else o.overrides.profile_rules;
      }

  -- ingestList, of a document that is encoded first.
  unfoldable pub ingest_list : Fields → S → Ingested S
  unfolding pipeline_for
  ingest_list document s = elim (b.encode document) [
    | err e ↦ record { summary = no_summary; state = s; error = some e }
    | ok root ↦ ingest_json pipeline_for root s
  ]

  -- upsertOffset
  unfoldable pub upsert_offset :
      (resource_version : String) (event : OffsetEvent) (status error : String)
      → S
      → S × Option String
  upsert_offset resource_version event status error s = elim b.put_offset [
    | none ↦ (s, none)
    | some put ↦
        put
          (record {
            cluster_id = o.cluster_id;
            resource = o.info;
            namespace = o.namespace;
            resource_version = resource_version;
            event = event;
            status = status;
            error = error;
            at = b.now s;
          })
          s
  ]
