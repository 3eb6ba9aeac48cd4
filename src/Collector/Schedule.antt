-- ===== src/Collector/Schedule.antt =====
-- internal/collector: which resource is watched first (watch_tuning.go), and the totals of several watches
-- (watch_resources.go). A time in the queue is a number of nanoseconds, and counts stay far below 64 bits.
pub mod Bounds
use Prim.Native.Nat.{◌-◌, ◌/◌}
use kube_insight.Prelude.{
  String, ℕ, ◌+◌, ◌*◌, Bool, true, false, not, ◌||◌, Option, none, some, List, [], ◌∷◌, ◌==◌,
  if◌then◌else◌, leb, ltb, is_empty,
}
use kube_insight.Kubeapi.{ResourceInfo}
use kube_insight.Profile.{Profile, Rule, select}
use kube_insight.Collector.Int.{ℤ, pos, negsuc}
use kube_insight.Collector.Watch.{WatchSummary, add_ingest}

-- profileForResource, with the rules that are built in.
unfoldable pub profile_for_resource : List Rule → ResourceInfo → List Rule → Profile
profile_for_resource embedded info rules =
    if is_empty rules then select info embedded else select info rules

-- priorityRank
unfoldable pub priority_rank : String → ℕ
priority_rank priority =
    if priority == "high"
    then 0
    else if priority == "normal"
    then 1
    else if priority == "low"
    then 2
    else 3

-- A difference of two sums that are not negative.
unfoldable pub difference : ℕ → ℕ → ℤ
difference gain loss = if leb loss gain then pos (gain - loss) else negsuc (loss - gain - 1)

abbrev pub lesser : ℕ → ℕ → ℕ
lesser a b = if leb a b then a else b

-- The switch of watchScheduleScore on the priority.
unfoldable pub priority_score : String → ℕ
priority_score priority =
    if priority == "high"
    then 100
    else if priority == "normal"
    then 50
    else if priority == "low"
    then 10
    else 0

unfoldable pub queue_score : ℕ → ℕ
queue_score queued_for = lesser 80 (queued_for / 60000000000 * 20)

-- What a summary adds to a score, and what it takes away.
unfoldable pub activity_score : Option WatchSummary → ℕ
activity_score none = 0
activity_score (some s) = lesser 50 (s.events * 5 + s.bookmarks * 2)

unfoldable pub trouble_score : Option WatchSummary → ℕ
trouble_score none = 0
trouble_score (some s) =
    (if ltb 0 s.latest_objects then lesser 40 (s.latest_objects / 250) else 0)
    + lesser 80 (s.watch_errors * 20 + s.retries * 5)

-- watchScheduleScore, from the profile of the resource.
unfoldable pub watch_schedule_score : Profile → Option WatchSummary → ℕ → ℤ
unfolding priority_score queue_score activity_score trouble_score difference
watch_schedule_score profile summary queued_for =
    if not profile.enabled
    then negsuc 99999
    else difference
        (priority_score profile.priority + queue_score queued_for + activity_score summary)
        (trouble_score summary)

-- mergeWatchSummary
unfoldable pub merge_watch_summary : WatchSummary → WatchSummary → WatchSummary
unfolding add_ingest
merge_watch_summary base extra = record {
  listed = base.listed + extra.listed;
  events = base.events + extra.events;
  stored = base.stored + extra.stored;
  bookmarks = base.bookmarks + extra.bookmarks;
  deleted = base.deleted + extra.deleted;
  reconciled_deleted = base.reconciled_deleted + extra.reconciled_deleted;
  unknown_visibility = base.unknown_visibility + extra.unknown_visibility;
  relists = base.relists + extra.relists;
  retries = base.retries + extra.retries;
  watch_errors = base.watch_errors + extra.watch_errors;
  latest_objects =
      if ltb 0 extra.listed || ltb 0 extra.latest_objects
      then extra.latest_objects
      else base.latest_objects;
  resource_version =
      if not (extra.resource_version == "") then extra.resource_version else base.resource_version;
  ingest = add_ingest base.ingest extra.ingest;
}
