-- ===== src/Lib.antt =====
-- kube-insight: the path of an observation from the Kubernetes API to the evidence store.
--
-- The program watches the objects of a Kubernetes cluster. Each event becomes an observation; the
-- resolver finds out which resource its object is, a profile chosen by rules says which chain of
-- filters and which set of extractors it goes through, the filters normalize it, redact it or discard
-- it, and the store keeps what is left, with the facts, edges and changes that the extractors find in
-- it.
--
-- Which module is about which part:
--   * Prelude: shared names, tests of numbers, lists, texts (ASCII case folding, trimming, byte
--     order) and the result type of code that returns an error.
--   * Json: decoded JSON. An object is the list of its fields; a read finds the first field of a key,
--     a write leaves one field of a key, and a range over a map follows the list.
--   * Core: internal/core/types.go.
--   * Match: internal/resourcematch/match.go; Match/Glob is the documented behaviour of path.Match on
--     these patterns.
--   * Kubeapi: internal/kubeapi/resolver.go and apiVersion of internal/collector/watch.go. The six
--     maps of a resolver are association lists under the source's keys. Kubeapi/Standard has the
--     resources that a new resolver knows, Kubeapi/Target the references by resource name.
--   * Profile: internal/resourceprofile/profile.go.
--   * Processing: internal/processing/registry.go, the built-in filters and extractors by name.
--   * Config: internal/config. Config/Settings are the structs, Config/Validation is Validate,
--     Config/Processing validateProcessing, and Config/Profiles the rules of profiles.
--   * Filter: internal/filter. A filter is the source's interface, Filter.apply_chain is Chain.Apply;
--     Filter/Scope, Filter/Objects, Filter/Conditions, Filter/Paths, Filter/Heartbeat and
--     Filter/Autoscaler are the filters. A filter takes an observation and returns one: the clones
--     that the source makes before it writes are what makes this faithful.
--   * Extractor: internal/extractor. The registry is extractor.go; Extractor/Pod, Extractor/Service,
--     Extractor/EndpointSlice, Extractor/Event and Extractor/Node are the files of the same names.
--     Evidence that the source appends piece by piece is put together by merge_evidence.
--   * Storage/Memory: internal/storage/memory.go, one function for each method.
--   * Ingest: internal/ingest. Ingest.Pipeline.ingest_json is Pipeline.IngestJSON from the decoded
--     document, its loop is ingest_inputs, one round of it ingest_one. Ingest/Configured builds the
--     chains, the registry and the pipeline of a configuration. Ingest/Memory puts the store in
--     memory behind the interface that the pipeline takes; Ingest/Entries and Ingest/Deletion say
--     what a store has to promise for the results about what is written.
--   * Collector: internal/collector. Collector/Scheduler shares out the slots for watch streams, one
--     function for each method of watch_tuning.go that holds the lock, and Scheduler/Steps.Step is
--     one call of one of them; Collector/Backoff is the delay before a retry, in 64 bits;
--     Collector/Int has the integers of the scores.
--   * Collector/Schedule: the scores by which watch_tuning.go chooses a stream.
--   * Collector/Watch: watch.go and the loops of watch_resources.go, for one resource.
--     Watch/Reconcile is a list and the deletions that follow from it (listResourceOnce,
--     reconcileDeletedFromList), Watch/Stream is one stream of events (watchResourceStream,
--     handleWatchEvent), and Watch/Retry has the three loops that try again. A call of the client is
--     a function that gives its answer, a stream is the list of what the loop finds round by round,
--     and a run is the list of its attempts; where the list ends before the code returns, the call is
--     waiting.
--   * Tests: small runs, and an example for each result.
--
-- A function that can fail returns a Result or leaves its error in a field beside the state, so that
-- what was done before the error is seen. Errors are texts, and no result depends on what they say.
--
-- Parameters stand for what the repository does not contain: the reading of a number literal
-- (Pipeline.number), the round trip of a map through encoding/json (Pipeline.round_trip), the clock
-- (Pipeline.now, by the number of calls), the encoding of documents (Backend.encode), the reading of
-- heartbeats and of YAML (Processing.Readers), the text of numbers (Extractor.Objects.Numbers), the
-- fingerprints of messages, the answers of the Kubernetes client, what an error of a store is for the
-- code that tells errors apart (Backend.error_of), and any store other than the one in memory. Times
-- are natural numbers, durations 64-bit integers, and the clock does not run back between a request
-- and a try. All recursion is structural: nothing runs on fuel.
--
-- Not modelled: locks, since each method that takes one holds it from beginning to end; logging; the
-- resolver that the extractors share outside the pipeline; the extractor of references, which a
-- registry takes as a parameter; the reading of configuration files, of the environment and of
-- overrides; the discovery of resources and the goroutines that watch several of them; the servers,
-- the agent, the databases and the command line.
pub mod Prelude
pub mod Json
pub mod Core
pub mod Match
pub mod Kubeapi
pub mod Filter
pub mod Profile
pub mod Processing
pub mod Config
pub mod Extractor
pub mod Storage
pub mod Ingest
pub mod Collector
mod Tests
