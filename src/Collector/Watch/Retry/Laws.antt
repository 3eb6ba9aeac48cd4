-- ===== src/Collector/Watch/Retry/Laws.antt =====
-- The loops that try again come to an end.
use kube_insight.Prelude.{
  String, ℕ, ◌+◌, ◌<◌, ◌≤◌, Bool, true, false, some, List, [], ◌∷◌, ◌≡◌, arith, inl, inr, All,
  length, ◌-◌,
}
use kube_insight.Collector.Watch.{
  WatchError, WatchSummary, Options, Backend, Watched, is_resource_version_expired,
}
use kube_insight.Collector.Watch.Reconcile.{answered, list_resource_once}
use kube_insight.Collector.Watch.Reconcile.Laws.{list_resource_once-Untried}
use kube_insight.Collector.Watch.Stream.{Round, watch_resource_stream}
use kube_insight.Collector.Watch.Stream.Laws.{
  Untried, is_waiting, End-cases, ends, watch_resource_stream-Untried,
}
use kube_insight.Collector.Watch.Retry.{
  Attempt, Backoff, gives_up, list_and_watch_once, watch_gives_up, after_failure, watch_resource,
  list_error, after_list_error, initial_list, relist, watch_stream,
}

-- Every stream that the client opens in an attempt comes to an end.
abbrev pub Closes : Attempt → Type 0
Closes a = (rv : String) (rounds : List Round) → a.stream rv ≡ answered rounds → ends rounds ≡ true

-- The attempts that a summary has counted.
abbrev pub tries : WatchSummary → ℕ
tries s = s.relists + s.retries

-- A call has come to an end, with so many attempts counted at most.
abbrev pub Settled : {S : Type 0} → ℕ → Watched S → Type 0
Settled most r = (is_waiting r.end ≡ false) × (tries r.summary ≤ most)

module _ {S : Type 0} (b : Backend S) (o : Options) where
  list_and_watch_once-Untried :
      (a : Attempt) (rv : String) (summary : WatchSummary) (s : S)
      → Closes a
      → let r = list_and_watch_once b o a rv summary s in
        Untried summary r.summary × (is_waiting r.end ≡ false)
  unfolding list_and_watch_once
  list_and_watch_once-Untried a rv summary s closes =
      let listed = list_resource_once b o a.listing rv summary s in
      let run = watch_resource_stream-Untried b o a.stream listed.summary listed.state in
      ground (
        arith,
        list_resource_once-Untried b o a.listing rv summary s,
        run.0,
        run.1 (closes listed.summary.resource_version),
      )

  after_failure-tries :
      (e : WatchError) (summary : WatchSummary) (s : S)
      → tries (after_failure b o e summary s).summary ≡ tries summary + 1
  unfolding after_failure
  after_failure-tries e summary s = ground arith

  watch_gives_up-Settled :
      (e : WatchError) (summary : WatchSummary) (s : S)
      → Settled (tries summary) (watch_gives_up b o e summary s)
  unfolding watch_gives_up
  watch_gives_up-Settled e summary s = ground arith

  after_list_error-tries :
      (t : Backoff) (e : WatchError) (r : Watched S)
      → tries (after_list_error b o t e r).summary ≡ tries r.summary + 1
  unfolding after_list_error
  after_list_error-tries t e r = ground arith

  list_error-Settled :
      (t : Backoff) (e : WatchError) (once : Watched S)
      → Settled (tries once.summary) (list_error b o t e once)
        × (tries (list_error b o t e once).summary ≡ tries once.summary)
  unfolding list_error
  list_error-Settled t e once = ground arith

  relist-Untried :
      (t : Backoff) (a : Attempt) (needs_list : Bool) (summary : WatchSummary) (s : S)
      → let r = relist b o t a needs_list summary s in
        Untried summary r.summary × (is_waiting r.end ≡ false)
  unfolding relist
  relist-Untried t a needs_list summary s =
      ground (arith, list_resource_once-Untried b o a.listing "" summary s)

  module _ (t : Backoff) (limit : ℕ) (limited : o.max_retries ≡ some limit) where
    -- With a limit on the retries, and streams that come to an end, the watch of a resource returns
    -- within one attempt more than the limit, and counts no more retries and relists than the limit.
    pub watch_resource-Settled :
        (later : List Attempt) (attempts : ℕ) (rv : String) (summary : WatchSummary) (s : S)
        → All Closes later
        → attempts ≤ limit
        → limit < attempts + length later
        → Settled
            (tries summary + (limit - attempts))
            (watch_resource b o t later attempts rv summary s)
    unfolding watch_resource gives_up
    watch_resource-Settled [] attempts rv summary s closes low enough = absurd (omega arith)
    watch_resource-Settled (a ∷ later) attempts rv summary s closes low enough =
        let once = list_and_watch_once b o a rv summary s in
        let run = list_and_watch_once-Untried a rv summary s closes.0 in
        elim (End-cases once.end) [
          | inl waits ↦ absurd (cc (rw waits at run.1))
          | inr (inl done) ↦ ground (arith, run, done)
          | inr (inr (e, bad)) ↦
              let next = after_failure b o e once.summary once.state in
              ground (
                arith,
                run,
                bad,
                limited,
                watch_gives_up-Settled e once.summary once.state,
                after_failure-tries e once.summary once.state,
                watch_resource-Settled later (attempts + 1) next.resource_version next.summary
                    next.state closes.1,
              )
        ]

    -- With a limit on the retries the initial list of a resource returns within one attempt more than
    -- the limit, and counts no more retries and relists than the limit.
    pub initial_list-Settled :
        (later : List Attempt) (attempts : ℕ) (rv : String) (summary : WatchSummary) (s : S)
        → attempts ≤ limit
        → limit < attempts + length later
        → Settled
            (tries summary + (limit - attempts))
            (initial_list b o t later attempts rv summary s)
    unfolding initial_list gives_up
    initial_list-Settled [] attempts rv summary s low enough = absurd (omega arith)
    initial_list-Settled (a ∷ later) attempts rv summary s low enough =
        let once = list_resource_once b o a.listing rv summary s in
        let run = list_resource_once-Untried b o a.listing rv summary s in
        elim (End-cases once.end) [
          | inl waits ↦ absurd (cc (rw waits at run.1))
          | inr (inl done) ↦ ground (arith, run, done)
          | inr (inr (e, bad)) ↦
              let noted = list_error b o t e once in
              let next = after_list_error b o t e noted in
              ground (
                arith,
                run,
                bad,
                limited,
                list_error-Settled t e once,
                after_list_error-tries t e noted,
                initial_list-Settled later (attempts + 1) next.resource_version next.summary
                    next.state,
              )
        ]

    -- With a limit on the retries, and streams that come to an end, the stream of a resource returns
    -- within one attempt more than the limit, and counts no more retries and relists than the limit.
    pub watch_stream-Settled :
        (later : List Attempt) (attempts : ℕ) (needs_list : Bool) (summary : WatchSummary) (s : S)
        → All Closes later
        → attempts ≤ limit
        → limit < attempts + length later
        → Settled
            (tries summary + (limit - attempts))
            (watch_stream b o t later attempts needs_list summary s)
    unfolding watch_stream gives_up
    watch_stream-Settled [] attempts needs_list summary s closes low enough = absurd (omega arith)
    watch_stream-Settled (a ∷ later) attempts needs_list summary s closes low enough =
        let listed = relist b o t a needs_list summary s in
        let first = relist-Untried t a needs_list summary s in
        let once = watch_resource_stream b o a.stream listed.summary listed.state in
        let stream = watch_resource_stream-Untried b o a.stream listed.summary listed.state in
        let over : is_waiting once.end ≡ false =
          stream.1 (closes.0 listed.summary.resource_version) in
        elim (End-cases listed.end) [
          | inl waits ↦ absurd (cc (rw waits at first.1))
          | inr (inr (e, bad)) ↦ ground (arith, first, bad)
          | inr (inl done) ↦ elim (End-cases once.end) [
            | inl waits ↦ absurd (cc (rw waits at over))
            | inr (inl ended) ↦ ground (arith, first, done, stream.0, ended)
            | inr (inr (e, bad)) ↦
                let next = after_failure b o e once.summary once.state in
                ground (
                  arith,
                  first,
                  done,
                  stream.0,
                  bad,
                  limited,
                  watch_gives_up-Settled e once.summary once.state,
                  after_failure-tries e once.summary once.state,
                  watch_stream-Settled later (attempts + 1) (is_resource_version_expired e)
                      next.summary next.state closes.1,
                )
          ]
        ]
