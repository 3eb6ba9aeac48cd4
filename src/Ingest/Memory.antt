-- ===== src/Ingest/Memory.antt =====
-- internal/storage/memory.go behind the interface that the pipeline of internal/ingest asks for. No
-- write of the store in memory fails.
pub mod Log
use mathlib.Core.Path.{sym, subst, ◌∙◌}
use kube_insight.Prelude.{Option, none, some, List, [], ◌∷◌, ◌++◌, ◌≡◌, ap, All}
use kube_insight.Prelude.Result.{ok}
use kube_insight.Json.{Fields}
use kube_insight.Core.{Observation}
use kube_insight.Filter.{Decision, apply_chain}
use kube_insight.Extractor.{Evidence}
use kube_insight.Storage.Memory.{
  MemoryStore, FilterDecisionRecord, put_observation, put_filter_decisions, put_raw_latest,
  api_resources,
}
use kube_insight.Ingest.Pipeline.{
  Store, Pipeline, ingest_json, filter_chain_for_profile, profile_for_observation,
}
use kube_insight.Ingest.Secrets.{IsPayloadFree}
use kube_insight.Ingest.Secrets.Copies.{IsRedactedCopy}
use kube_insight.Ingest.Secrets.Stored.{ingest_json-keeps}

abbrev pub memory_store : Store MemoryStore
memory_store = record {
  put_observation = λ obs evidence s. (put_observation obs evidence s, none);
  api_resources = some (λ s. ok (api_resources s));
  put_filter_decisions = some (λ obs ds s. (put_filter_decisions obs ds s, none));
  put_raw_latest = some (λ obs s. (put_raw_latest obs s, none));
}

-- An observation of a secret, of the core group in version v1, has no payload.
abbrev pub IsSecretFree : Observation → Type 0
IsSecretFree obs = obs.ref.group ≡ "" → obs.ref.version ≡ "v1" → IsPayloadFree obs

abbrev OfDecision : FilterDecisionRecord → Type 0
OfDecision d = IsSecretFree d.observation

-- No observation of a secret in the store, with its decisions or alone, has a payload, and every raw
-- copy of a secret is redacted.
abbrev pub KeepsSecrets : MemoryStore → Type 0
KeepsSecrets s =
    All IsSecretFree s.observations
    × All OfDecision s.filter_decisions
    × All IsRedactedCopy s.raw_latest

pub some_inj : {A : Type 0} {a b : A} → Option.some a ≡ some b → a ≡ b
some_inj e = cc

All-snoc :
    {A : Type 0} (P : A → Type 0) (xs : List A) (x : A) → All P xs → P x → All P (xs ++ x ∷ [])
All-snoc P [] x h k = (k, tt)
All-snoc P (y ∷ ys) x h k = (h.0, All-snoc P ys x h.1 k)

pub put_observation-Keeps :
    (obs : Observation) (e : Evidence) (s : MemoryStore)
    → IsSecretFree obs
    → KeepsSecrets s
    → KeepsSecrets (put_observation obs e s)
unfolding put_observation
put_observation-Keeps obs e s free h = (All-snoc IsSecretFree s.observations obs h.0 free, h.1, h.2)

pub put_filter_decisions-Keeps :
    (obs : Observation) (ds : List Decision) (s : MemoryStore)
    → IsSecretFree obs
    → KeepsSecrets s
    → KeepsSecrets (put_filter_decisions obs ds s)
unfolding put_filter_decisions
put_filter_decisions-Keeps obs [] s free h = h
put_filter_decisions-Keeps obs (d ∷ ds) s free h =
    put_filter_decisions-Keeps obs ds
      (record s {
        filter_decisions = s.filter_decisions ++ record { observation = obs; decision = d } ∷ [];
      })
      free
      (
        h.0,
        All-snoc OfDecision s.filter_decisions (record { observation = obs; decision = d }) h.1
            free,
        h.2,
      )

pub put_raw_latest-Keeps :
    (obs : Observation) (s : MemoryStore)
    → IsRedactedCopy obs
    → KeepsSecrets s
    → KeepsSecrets (put_raw_latest obs s)
unfolding put_raw_latest
put_raw_latest-Keeps obs s redacted h =
    (h.0, h.1, All-snoc IsRedactedCopy s.raw_latest obs h.2 redacted)

-- The pipeline over the store in memory, where the chain that the profile of an observation chooses
-- leaves observations of core v1 secrets without a payload, unless it ends in an error: a store in
-- which no observation of such a secret, with its decisions or alone, has a payload, and every raw
-- copy of a secret is redacted, is left as such a store by a run on any document, whether it ends in
-- an error or not.
pub memory-KeepsSecrets :
    (p : Pipeline MemoryStore)
    → p.store ≡ memory_store
    → ((obs : Observation)
        → let chain = filter_chain_for_profile p (profile_for_observation p obs) in
          let r = apply_chain chain obs in r.error ≡ none → IsSecretFree r.observation)
    → (root : Fields) (s : MemoryStore) → KeepsSecrets s
    → KeepsSecrets (ingest_json p root s).state
memory-KeepsSecrets p memory chains root s h =
    ingest_json-keeps p IsSecretFree KeepsSecrets
      (λ obs e s free h. rw (memory) (put_observation-Keeps obs e s free h))
      (λ put is obs ds s free h.
        subst (λ f. KeepsSecrets (f obs ds s).0)
          (some_inj (sym (ap (λ m. m.put_filter_decisions) memory) ∙ is))
          (put_filter_decisions-Keeps obs ds s free h))
      (λ put is obs s redacted h.
        subst (λ f. KeepsSecrets (f obs s).0)
          (some_inj (sym (ap (λ m. m.put_raw_latest) memory) ∙ is))
          (put_raw_latest-Keeps obs s redacted h))
      chains root s h
