-- ===== src/Tests/Watch.antt =====
-- Runs of the watch of pods over the store in memory.
use kube_insight.Prelude.{◌+◌, ◌≤◌, true, false, none, some, List, [], ◌∷◌, ◌≡◌, refl, arith}
use kube_insight.Prelude.Result.{ok}
use kube_insight.Json.{str, end}
use kube_insight.Kubeapi.{ResourceInfo, empty, register}
use kube_insight.Extractor.{new_registry}
use kube_insight.Storage.Memory.{
  MemoryStore, new_memory_store, upsert_ingestion_offset, latest_resource_refs,
}
use kube_insight.Ingest.Memory.{memory_store}
use kube_insight.Ingest.Pipeline.{Pipeline, no_summary}
use kube_insight.Collector.Watch.{Options, Backend, WatchSummary, plain}
use kube_insight.Collector.Watch.Reconcile.{Answer, answered}
use mathlib.Core.Path.{subst}
use kube_insight.Collector.Int.{pos, less_int}
use kube_insight.Ingest.Rounds.{taken}
use kube_insight.Collector.Watch.Stream.{
  Round, received, object_event, added, channel_closed, watch_rounds,
}
use kube_insight.Collector.Watch.Stream.Laws.{ends, objects_in, watch_rounds-bounded}
use kube_insight.Collector.Watch.Retry.{Attempt, Backoff, watch_resource, watch_stream}
use kube_insight.Collector.Watch.Retry.Laws.{
  Closes, Settled, tries, watch_resource-Settled, watch_stream-Settled,
}
use kube_insight.Profile.{default_profile}
use kube_insight.Collector.Schedule.{watch_schedule_score}
use kube_insight.Collector.Schedule.Bounds.{Moderate, watch_schedule_score-Moderate}
use kube_insight.Tests.{pod, secret_object}

abbrev pub pods : ResourceInfo
pods = record {
  group = "";
  version = "v1";
  resource = "pods";
  kind = "Pod";
  namespaced = true;
  verbs = [];
}

abbrev pub pipeline : Pipeline MemoryStore
pipeline = record {
  cluster_id = "";
  filters = [];
  filter_chains = record { default = none; by_name = [] };
  extractors = new_registry [] [];
  profile_rules = [];
  resolver = register pods empty;
  store = record memory_store { api_resources = none };
  now = λ n. n;
  number = λ literal. str literal;
  round_trip = λ m. ok m;
}

abbrev backend : Backend MemoryStore
backend = record {
  default_pipeline = pipeline;
  latest_refs =
      some (λ cluster_id info namespace s. ok (latest_resource_refs s cluster_id info namespace));
  put_offset = some (λ offset s. (upsert_ingestion_offset offset s, none));
  encode = λ document. ok document;
  now = λ s. 0;
  error_of = plain;
}

abbrev options : Options
options = record {
  cluster_id = "local";
  info = pods;
  namespace = "shop";
  max_events = 2;
  max_retries = some 1;
  deadline = none;
  overrides = record {
    filters = none;
    filter_chains = record { default = none; by_name = [] };
    extractors = none;
    profile_rules = [];
  };
}

abbrev no_watch : WatchSummary
no_watch = record {
  listed = 0;
  events = 0;
  stored = 0;
  bookmarks = 0;
  deleted = 0;
  reconciled_deleted = 0;
  unknown_visibility = 0;
  relists = 0;
  retries = 0;
  watch_errors = 0;
  latest_objects = 0;
  resource_version = "";
  ingest = no_summary;
}

abbrev before : MemoryStore
before = record new_memory_store { observations = pod ∷ [] }

-- A stream with one event, that the server closes.
abbrev rounds : List Round
rounds =
    record { late = false; happening = received (object_event added secret_object) }
    ∷ record { late = false; happening = channel_closed }
    ∷ []

abbrev attempt : Attempt
attempt = record {
  listing = λ rv. answered (record { items = []; document = end; resource_version = "5" });
  stream = λ rv. answered rounds;
  pause = record { start = 0; check = 0; until = 0; nanos = 0; cancelled = none };
}

answered_inj : {A : Type 0} {a b : A} → Answer.answered a ≡ Answer.answered b → a ≡ b
answered_inj e = cc

attempt-Closes : Closes attempt
attempt-Closes rv taken e = subst (λ rs. ends rs ≡ true) (answered_inj e) refl

abbrev backoff : Backoff
backoff = record { least = pos 1; most = pos 8 }

-- With a limit of two events, a third one behind the stretch is not handled.
abbrev event : Round
event = record { late = false; happening = received (object_event added secret_object) }

watch_rounds-bounded_example :
    ((watch_rounds backend options (event ∷ event ∷ []) no_watch before).summary.events ≤ 2)
    × (2 ≤ 0 + objects_in (event ∷ event ∷ [])
        → ((watch_rounds backend options (event ∷ event ∷ event ∷ []) no_watch before).summary
            ≡ (watch_rounds backend options (event ∷ event ∷ []) no_watch before).summary)
          × ((watch_rounds backend options (event ∷ event ∷ event ∷ []) no_watch before).state
              ≡ (watch_rounds backend options (event ∷ event ∷ []) no_watch before).state))
watch_rounds-bounded_example =
    watch_rounds-bounded backend options (event ∷ event ∷ []) (event ∷ []) no_watch before
      (omega arith) (omega arith)

watch_resource-Settled_example :
    Settled
      (tries no_watch + 1)
      (watch_resource backend options backoff (attempt ∷ attempt ∷ []) 0 "" no_watch before)
watch_resource-Settled_example =
    watch_resource-Settled backend options backoff 1 refl (attempt ∷ attempt ∷ []) 0 "" no_watch
      before (attempt-Closes, (attempt-Closes, tt)) (omega arith) (omega arith)

watch_stream-Settled_example :
    Settled
      (tries no_watch + 1)
      (watch_stream backend options backoff (attempt ∷ attempt ∷ []) 0 true no_watch before)
watch_stream-Settled_example =
    watch_stream-Settled backend options backoff 1 refl (attempt ∷ attempt ∷ []) 0 true no_watch
      before (attempt-Closes, (attempt-Closes, tt)) (omega arith) (omega arith)

abbrev busy : WatchSummary
busy = record no_watch { events = 9; watch_errors = 1 }

watch_schedule_score-Moderate_example :
    Moderate (watch_schedule_score default_profile (some busy) 0)
    × (less_int
          (watch_schedule_score (record default_profile { enabled = false }) none 600000000000)
          (watch_schedule_score default_profile (some busy) 0)
        ≡ true)
watch_schedule_score-Moderate_example =
    watch_schedule_score-Moderate default_profile (record default_profile { enabled = false })
      (some busy) none 600000000000 0 refl refl
