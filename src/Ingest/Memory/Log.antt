-- ===== src/Ingest/Memory/Log.antt =====
-- The store in memory of internal/storage/memory.go as a log of observations: its observations, and the
-- resources that its writes leave alone.
use kube_insight.Prelude.{String, some, List, [], ◌∷◌, ◌++◌, ◌≡◌, refl, ap, ◌∙◌, sym}
use kube_insight.Prelude.Result.{ok}
use kube_insight.Core.{Observation}
use kube_insight.Filter.{Decision}
use kube_insight.Extractor.{Evidence}
use kube_insight.Kubeapi.{register_all}
use kube_insight.Storage.Memory.{
  MemoryStore, put_observation, put_filter_decisions, put_raw_latest, api_resources,
}
use kube_insight.Ingest.Pipeline.{Pipeline, load_resources}
use kube_insight.Ingest.Entries.{Log}
use kube_insight.Ingest.Deletion.{Steady}
use kube_insight.Ingest.Memory.{memory_store, some_inj}

pub decisions_leave :
    (obs : Observation) (ds : List Decision) (s : MemoryStore)
    → ((put_filter_decisions obs ds s).observations ≡ s.observations)
      × ((put_filter_decisions obs ds s).resources ≡ s.resources)
unfolding put_filter_decisions
decisions_leave obs [] s = (refl, refl)
decisions_leave obs (d ∷ ds) s = decisions_leave obs ds _

pub raw_leaves :
    (obs : Observation) (s : MemoryStore)
    → ((put_raw_latest obs s).observations ≡ s.observations)
      × ((put_raw_latest obs s).resources ≡ s.resources)
unfolding put_raw_latest
raw_leaves obs s = (refl, refl)

module _ (p : Pipeline MemoryStore) (memory : p.store ≡ memory_store) where
  pub never_fails :
      (obs : Observation) (e : Evidence) (s : MemoryStore) (error : String)
      → ¬ ((p.store.put_observation obs e s).1 ≡ some error)
  never_fails obs e s error bad = cc (rw memory at bad)

  pub appends_one :
      (obs : Observation) (e : Evidence) (s : MemoryStore)
      → (p.store.put_observation obs e s).0.observations ≡ s.observations ++ obs ∷ []
  unfolding put_observation
  appends_one obs e s = rw (memory) refl

  abbrev pub memory_log : Log p
  memory_log = record {
    entries = λ s. s.observations;
    appends = λ obs e s fine. appends_one obs e s;
    refuses = λ obs e s error bad. absurd (never_fails obs e s error bad);
    keeps_decisions = λ put is obs ds s.
        ap (λ f. (f obs ds s).0.observations)
          (some_inj (sym is ∙ ap (λ m. m.put_filter_decisions) memory))
        ∙ (decisions_leave obs ds s).0;
    keeps_copies = λ put is obs s.
        ap (λ f. (f obs s).0.observations) (some_inj (sym is ∙ ap (λ m. m.put_raw_latest) memory))
        ∙ (raw_leaves obs s).0;
  }

  -- The resolver of the pipeline, with the resources of the store.
  pub memory_loads :
      (s : MemoryStore) → load_resources p s ≡ ok (register_all s.resources p.resolver)
  unfolding load_resources api_resources
  memory_loads s = rw (load_resources, memory) refl

  same_resources :
      (s t : MemoryStore) → t.resources ≡ s.resources → load_resources p t ≡ load_resources p s
  same_resources s t same =
      memory_loads t ∙ ap (λ rs. ok (register_all rs p.resolver)) same ∙ sym (memory_loads s)

  pub memory-Steady : Steady p
  unfolding put_observation
  memory-Steady = record {
    observations =
        λ obs e s. same_resources s (p.store.put_observation obs e s).0 (rw (memory) refl);
    decisions = λ put is obs ds s. same_resources s (put obs ds s).0 (
        ap (λ f. (f obs ds s).0.resources)
          (some_inj (sym is ∙ ap (λ m. m.put_filter_decisions) memory))
        ∙ (decisions_leave obs ds s).1);
    copies = λ put is obs s. same_resources s (put obs s).0 (
        ap (λ f. (f obs s).0.resources) (some_inj (sym is ∙ ap (λ m. m.put_raw_latest) memory))
        ∙ (raw_leaves obs s).1);
  }
