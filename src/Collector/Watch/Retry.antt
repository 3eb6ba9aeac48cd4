-- ===== src/Collector/Watch/Retry.antt =====
-- internal/collector/watch.go and watch_resources.go: the loops that try again. A loop runs over the
-- attempts that are made, each with what the client answers in it and with the pause behind it; where
-- no attempt is left it is still waiting.
pub mod Laws
use Prim.Native.Nat.{◌-◌}
use kube_insight.Prelude.{
  String, ℕ, ◌+◌, Bool, true, false, not, ◌&&◌, ◌||◌, Option, none, some, List, [], ◌∷◌, ◌==◌,
  if◌then◌else◌, ltb, leb,
}
use kube_insight.Storage.Memory.{OffsetEvent, watch, list}
use kube_insight.Collector.Int.{ℤ, pos, negsuc, less_int}
use kube_insight.Collector.Backoff.{retry_delay}
use kube_insight.Collector.Watch.{
  WatchError, watch_closed, WatchSummary, Options, Backend, End, waiting, returned, failed, Watched,
  is_resource_version_expired, is_transient, is_graceful, upsert_offset,
}
use kube_insight.Collector.Watch.Reconcile.{Answer, Listing, list_resource_once}
use kube_insight.Collector.Watch.Stream.{Round, watch_resource_stream}

-- What sleepBeforeRetry finds: the clock at its three readings, the clock of the jitter, and the error
-- of the context where it ends while the timer runs.
pub record Pause : Type 0 where
  pub start : ℕ
  pub check : ℕ
  pub until : ℕ
  pub nanos : ℕ
  pub cancelled : Option WatchError

-- `now.Add(delay).After(deadline)`
unfoldable pub runs_past : ℕ → ℤ → ℕ → Bool
runs_past now (pos delay) deadline = ltb deadline (now + delay)
runs_past now (negsuc n) deadline = ltb (deadline + n + 1) now

-- sleepBeforeRetry, up to the time that it sleeps: its error, where it has one.
unfoldable pub sleep_before_retry :
    Option ℕ → (attempt : ℕ) → (least most : ℤ) → Pause → Option WatchError
unfolding runs_past
sleep_before_retry none attempt least most p = p.cancelled
sleep_before_retry (some deadline) attempt least most p =
    let delay = retry_delay p.nanos attempt least most in
    if ltb deadline p.start
    then some watch_closed
    else if runs_past p.check delay deadline && leb deadline p.until
    then some watch_closed
    else p.cancelled

pub record Attempt : Type 0 where
  pub listing : String → Answer Listing
  pub stream : String → Answer (List Round)
  pub pause : Pause

-- The bounds of the backoff, as normalizedBackoff leaves them.
pub record Backoff : Type 0 where
  pub least : ℤ
  pub most : ℤ

-- `opts.MaxRetries >= 0 && attempts > opts.MaxRetries`
unfoldable pub gives_up : Option ℕ → ℕ → Bool
gives_up none attempts = false
gives_up (some limit) attempts = ltb limit attempts

-- What a failed attempt leaves: the resourceVersion for the next, and what is counted.
pub record Retried (S : Type 0) : Type 0 where
  pub resource_version : String
  pub summary : WatchSummary
  pub state : S

module _ {S : Type 0} (b : Backend S) (o : Options) where
  -- listAndWatchOnce
  unfoldable pub list_and_watch_once : Attempt → String → WatchSummary → S → Watched S
  list_and_watch_once a rv summary s =
      let listed = list_resource_once b o a.listing rv summary s in
      elim listed.end [
        | waiting ↦ listed
        | failed e ↦ listed
        | returned ↦ watch_resource_stream b o a.stream listed.summary listed.state
      ]

  -- `_ = upsertOffset(…)`
  abbrev pub note : OffsetEvent → String → WatchError → WatchSummary → S → S
  note event status e summary s =
      (upsert_offset b o summary.resource_version event status e.text s).0

  unfoldable pub watch_gives_up : WatchError → WatchSummary → S → Watched S
  watch_gives_up e summary s = record {
    summary = record summary { watch_errors = summary.watch_errors + 1 };
    state = note watch "watch_error" e summary s;
    end = failed e;
  }

  -- The three cases of the loop of WatchResourceClientGo.
  unfoldable pub after_failure : WatchError → WatchSummary → S → Retried S
  after_failure e summary s =
      if is_resource_version_expired e
      then record {
        resource_version = "";
        summary = record summary { relists = summary.relists + 1 };
        state = note watch "retrying" e summary s;
      }
      else if is_transient e
      then record {
        resource_version = summary.resource_version;
        summary = record summary { retries = summary.retries + 1 };
        state = note watch "retrying" e summary s;
      }
      else record {
        resource_version = summary.resource_version;
        summary = record summary {
          watch_errors = summary.watch_errors + 1;
          retries = summary.retries + 1;
        };
        state = note watch "watch_error" e summary s;
      }

  module _ (t : Backoff) where
    -- The loop of WatchResourceClientGo, after a number of failed attempts.
    unfoldable pub watch_resource : List Attempt → ℕ → String → WatchSummary → S → Watched S
    unfolding list_and_watch_once watch_gives_up after_failure
    watch_resource [] attempts rv summary s = record { summary = summary; state = s; end = waiting }
    watch_resource (a ∷ later) attempts rv summary s =
        let once = list_and_watch_once a rv summary s in
        elim once.end [
          | waiting ↦ once
          | returned ↦ once
          | failed e ↦ elim (is_graceful o.deadline e) [
            | true ↦ record { summary = once.summary; state = once.state; end = returned }
            | false ↦ elim (gives_up o.max_retries (attempts + 1)) [
              | true ↦ watch_gives_up e once.summary once.state
              | false ↦
                  let next = after_failure e once.summary once.state in
                  elim (sleep_before_retry o.deadline (attempts + 1) t.least t.most a.pause) [
                    | some e ↦ record { summary = next.summary; state = next.state; end = failed e }
                    | none ↦
                        watch_resource later (attempts + 1) next.resource_version next.summary
                          next.state
                  ]
            ]
          ]
        ]

    -- The failed list of WatchResourceInitialListClientGo.
    unfoldable pub list_error : WatchError → Watched S → Watched S
    list_error e once = record {
      summary = record once.summary { watch_errors = once.summary.watch_errors + 1 };
      state =
          note list "list_error" e
            (record once.summary { watch_errors = once.summary.watch_errors + 1 }) once.state;
      end = failed e;
    }

    unfoldable pub after_list_error : WatchError → Watched S → Retried S
    after_list_error e r =
        if is_resource_version_expired e
        then record {
          resource_version = "";
          summary = record r.summary { relists = r.summary.relists + 1 };
          state = r.state;
        }
        else record {
          resource_version = r.summary.resource_version;
          summary = record r.summary { retries = r.summary.retries + 1 };
          state = r.state;
        }

    -- The loop of WatchResourceInitialListClientGo; its pauses know no deadline.
    unfoldable pub initial_list : List Attempt → ℕ → String → WatchSummary → S → Watched S
    unfolding list_error after_list_error
    initial_list [] attempts rv summary s = record { summary = summary; state = s; end = waiting }
    initial_list (a ∷ later) attempts rv summary s =
        let once = list_resource_once b o a.listing rv summary s in
        elim once.end [
          | waiting ↦ once
          | returned ↦ once
          | failed e ↦
              let noted = list_error e once in
              elim (gives_up o.max_retries (attempts + 1)) [
                | true ↦ noted
                | false ↦
                    let next = after_list_error e noted in
                    elim (sleep_before_retry none (attempts + 1) t.least t.most a.pause) [
                      | some e ↦ record {
                        summary = next.summary;
                        state = next.state;
                        end = failed e;
                      }
                      | none ↦
                          initial_list later (attempts + 1) next.resource_version next.summary
                            next.state
                    ]
              ]
        ]

    -- One round of WatchResourceStreamClientGo, which lists first where a list is needed.
    unfoldable pub relist : Attempt → Bool → WatchSummary → S → Watched S
    relist a needs_list summary s =
        if needs_list
        then list_resource_once b o a.listing "" summary s
        else record { summary = summary; state = s; end = returned }

    -- The loop of WatchResourceStreamClientGo.
    unfoldable pub watch_stream :
        List Attempt → ℕ → (needs_list : Bool) → WatchSummary → S → Watched S
    unfolding relist watch_gives_up after_failure
    watch_stream [] attempts needs_list summary s = record {
      summary = summary;
      state = s;
      end = waiting;
    }
    watch_stream (a ∷ later) attempts needs_list summary s =
        let listed = relist a needs_list summary s in
        elim listed.end [
          | waiting ↦ listed
          | failed e ↦ listed
          | returned ↦
              let once = watch_resource_stream b o a.stream listed.summary listed.state in
              elim once.end [
                | waiting ↦ once
                | returned ↦ once
                | failed e ↦ elim (is_graceful o.deadline e) [
                  | true ↦ record { summary = once.summary; state = once.state; end = returned }
                  | false ↦ elim (gives_up o.max_retries (attempts + 1)) [
                    | true ↦ watch_gives_up e once.summary once.state
                    | false ↦
                        let next = after_failure e once.summary once.state in
                        elim (sleep_before_retry o.deadline (attempts + 1) t.least t.most a.pause) [
                          | some e ↦ record {
                            summary = next.summary;
                            state = next.state;
                            end = failed e;
                          }
                          | none ↦
                              watch_stream later (attempts + 1) (is_resource_version_expired e)
                                next.summary next.state
                        ]
                  ]
                ]
              ]
        ]
