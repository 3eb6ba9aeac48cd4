-- ===== src/Collector/Watch/Stream/Laws.antt =====
-- What a watch stream counts, and when it ends.
use kube_insight.Prelude.{
  String, ℕ, ◌+◌, ◌<◌, ◌≤◌, Bool, true, false, List, [], ◌∷◌, ◌++◌, ◌≡◌, refl, arith, inl, inr, any,
  ◌⊎◌, if◌then◌else◌,
}
use kube_insight.Storage.Memory.{watch}
use kube_insight.Collector.Watch.{
  WatchError, WatchSummary, Options, Backend, End, waiting, returned, failed, upsert_offset,
}
use kube_insight.Collector.Watch.Reconcile.{Answer, refused, answered}
use kube_insight.Collector.Watch.Stream.{
  Event, error_event, opaque, object_event, is_bookmark, Happening, Round, received, channel_closed,
  cancelled, handle_watch_event, handle_object, handle_bookmark, watch_rounds,
  watch_resource_stream, stream_over,
}

abbrev pub is_waiting : End → Bool
is_waiting waiting = true
is_waiting returned = false
is_waiting (failed e) = false

pub End-cases : (e : End) → (e ≡ waiting) ⊎ ((e ≡ returned) ⊎ ((x : WatchError) × (e ≡ failed x)))
End-cases waiting = inl refl
End-cases returned = inr (inl refl)
End-cases (failed x) = inr (inr (x, refl))

Happening-cases :
    (h : Happening)
    → (h ≡ channel_closed)
      ⊎ (((e : WatchError) × (h ≡ cancelled e)) ⊎ ((event : Event) × (h ≡ received event)))
Happening-cases channel_closed = inl refl
Happening-cases (cancelled e) = inr (inl (e, refl))
Happening-cases (received event) = inr (inr (event, refl))

pub Answer-cases :
    {A : Type 0} (a : Answer A)
    → ((e : WatchError) × (a ≡ refused e)) ⊎ ((x : A) × (a ≡ answered x))
Answer-cases (refused e) = inl (e, refl)
Answer-cases (answered x) = inr (x, refl)

-- Neither a list nor a stream counts attempts.
abbrev pub Untried : WatchSummary → WatchSummary → Type 0
Untried s r = (r.relists ≡ s.relists) × (r.retries ≡ s.retries)

-- A round at which the stream ends, whatever the summary.
abbrev pub closes : Happening → Bool
closes (received event) = false
closes channel_closed = true
closes (cancelled e) = true

-- How many objects a round carries, bookmarks aside.
abbrev pub objects_of : Happening → ℕ
objects_of (received (object_event type object)) = if is_bookmark type then 0 else 1
objects_of (received (error_event e)) = 0
objects_of (received opaque) = 0
objects_of channel_closed = 0
objects_of (cancelled e) = 0

abbrev pub objects_in : List Round → ℕ
objects_in [] = 0
objects_in (r ∷ rs) = objects_of r.happening + objects_in rs

abbrev pub ends : List Round → Bool
ends rounds = any (λ r. closes r.happening) rounds

module _ {S : Type 0} (b : Backend S) (o : Options) where
  handle_watch_event-Untried :
      (event : Event) (summary : WatchSummary) (s : S)
      → let r = handle_watch_event b o event summary s in
        Untried summary r.summary
        × (is_waiting r.end ≡ false)
        × (r.summary.events ≤ summary.events + 1)
  unfolding handle_watch_event handle_object handle_bookmark
  handle_watch_event-Untried event summary s = ground arith

  watch_rounds-Untried :
      (rounds : List Round) (summary : WatchSummary) (s : S)
      → let r = watch_rounds b o rounds summary s in
        Untried summary r.summary × (ends rounds ≡ true → is_waiting r.end ≡ false)
  unfolding watch_rounds
  watch_rounds-Untried [] summary s = ((refl, refl), λ h. absurd (cc h))
  watch_rounds-Untried (r ∷ rs) summary s = elim (Happening-cases r.happening) [
    | inl closed ↦ ground (arith, closed)
    | inr (inl (e, stopped)) ↦ ground (arith, stopped)
    | inr (inr (event, came)) ↦
        let handled = handle_watch_event b o event summary s in
        ground (
          arith,
          came,
          handle_watch_event-Untried event summary s,
          watch_rounds-Untried rs handled.summary handled.state,
        )
  ]

  pub watch_resource_stream-Untried :
      (client : String → Answer (List Round)) (summary : WatchSummary) (s : S)
      → let r = watch_resource_stream b o client summary s in
        Untried summary r.summary
        × (((rounds : List Round)
              → client summary.resource_version ≡ answered rounds
              → ends rounds ≡ true)
            → is_waiting r.end ≡ false)
  unfolding watch_resource_stream
  watch_resource_stream-Untried client summary s =
      elim (Answer-cases (client summary.resource_version)) [
        | inl (e, bad) ↦ ground (arith, bad)
        | inr (rounds, given) ↦
            let run =
              watch_rounds-Untried rounds summary
                (upsert_offset b o summary.resource_version watch "watching" "" s).0 in
            (ground (arith, given, run), λ close. ground (arith, given, run, close rounds given))
      ]

  -- A handled event counts when it carries an object that is no bookmark.
  handle_watch_event-counts :
      (event : Event) (summary : WatchSummary) (s : S)
      → let r = handle_watch_event b o event summary s in
        r.end ≡ returned → r.summary.events ≡ summary.events + objects_of (received event)
  unfolding handle_watch_event handle_object handle_bookmark
  handle_watch_event-counts (error_event e) summary s done = absurd (cc done)
  handle_watch_event-counts opaque summary s done = omega arith
  handle_watch_event-counts (object_event type object) summary s done = ground (arith, done)

  -- With a limit on the events, a stream that starts within it never counts more; and where a stretch
  -- of the stream carries as many objects that are no bookmarks as are left to the limit, nothing that
  -- comes behind it is handled: the summary and the store are what that stretch alone leaves.
  pub watch_rounds-bounded :
      (rounds later : List Round) (summary : WatchSummary) (s : S)
      → 0 < o.max_events
      → summary.events ≤ o.max_events
      → ((watch_rounds b o rounds summary s).summary.events ≤ o.max_events)
        × (o.max_events ≤ summary.events + objects_in rounds
            → ((watch_rounds b o (rounds ++ later) summary s).summary
                ≡ (watch_rounds b o rounds summary s).summary)
              × ((watch_rounds b o (rounds ++ later) summary s).state
                  ≡ (watch_rounds b o rounds summary s).state))
  unfolding watch_rounds stream_over
  watch_rounds-bounded [] [] summary s limited within = (within, λ full. (refl, refl))
  watch_rounds-bounded [] (r ∷ rs) summary s limited within =
      (within, λ full. ground (arith, limited, within, full))
  watch_rounds-bounded (r ∷ rs) later summary s limited within =
      elim (Happening-cases r.happening) [
        | inl closed ↦ ground (arith, closed)
        | inr (inl (e, stopped)) ↦ ground (arith, stopped)
        | inr (inr (event, came)) ↦
            let handled = handle_watch_event b o event summary s in
            ground (
              arith,
              came,
              handle_watch_event-Untried event summary s,
              handle_watch_event-counts event summary s,
              watch_rounds-bounded rs later handled.summary handled.state limited,
            )
      ]
