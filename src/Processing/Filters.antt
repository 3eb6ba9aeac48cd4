-- ===== src/Processing/Filters.antt =====
-- What the built-in filters promise, all of them at once.
use mathlib.Core.Path.{subst}
use kube_insight.Prelude.{
  String, some, List, [], ◌∷◌, ◌≡◌, refl, ◌==◌, if◌then◌else◌, Bool-cases, Option-cases, inl, inr,
  All, is_empty, not,
}
use kube_insight.Prelude.Result.{ok}
use kube_insight.Core.{Observation}
use kube_insight.Filter.{Outcome, keep_modified, discard_resource, Filter, Decision, total}
use kube_insight.Filter.Objects.Laws.{
  Honest, secret_redaction-Honest, managed_fields-Honest, resource_version-Honest,
  leader_election-Honest, lease_skip-Honest,
}
use kube_insight.Ingest.Secrets.{ok_inj}
use kube_insight.Ingest.Memory.{some_inj}
use kube_insight.Filter.{lease_skip_apply, lease_skip, pass, static_decision}
use kube_insight.Filter.Objects.{
  secret_redaction, managed_fields, resource_version, leader_election,
}
use kube_insight.Filter.Conditions.Laws.{condition_timestamps-Honest, condition_set-Honest}
use kube_insight.Filter.Paths.Resolves.{path_remove-Honest}
use kube_insight.Filter.Autoscaler.{cluster_autoscaler}
use kube_insight.Filter.Autoscaler.Laws.{cluster_autoscaler-Honest}
use kube_insight.Filter.Heartbeat.{gke_webhook, gke_webhook-Honest, gke_webhook-outcome}
use kube_insight.Filter.Paths.{path_remove}
use kube_insight.Filter.Conditions.{condition_timestamps, condition_set}
use kube_insight.Processing.{
  Readers, FilterOptions, FilterDefinition, configured_paths, report_skip, built_in_filters, find,
  new_built_in_filter,
}
use kube_insight.Processing.Outcomes.{
  Sound, Outcomes, total-Sound, Outcomes-secret_redaction, Outcomes-managed_fields,
  Outcomes-resource_version, Outcomes-leader_election, Outcomes-condition_timestamps,
  Outcomes-condition_set, Outcomes-path_remove, Outcomes-lease_skip, Outcomes-cluster_autoscaler,
}

abbrev modifying_sound :
    {f : Observation → Observation × Decision} (name : String)
    → ((obs : Observation) → Honest obs (f obs))
    → Outcomes keep_modified f
    → Sound keep_modified (total name f)
modifying_sound {f = f} name honest acts = total-Sound name f keep_modified honest acts

path_remove-Sound :
    (name reason : String) (paths : List String)
    → Sound keep_modified (path_remove name reason paths)
unfolding path_remove
path_remove-Sound name reason paths =
    modifying_sound (path_remove name reason paths).name (path_remove-Honest paths reason)
      (Outcomes-path_remove paths reason)

lease_skip-Sound : Sound discard_resource lease_skip
lease_skip-Sound =
    total-Sound lease_skip.name lease_skip_apply discard_resource lease_skip-Honest
      Outcomes-lease_skip

report_skip-Sound : Sound discard_resource report_skip
unfolding static_decision
report_skip-Sound =
    total-Sound report_skip.name (λ obs. pass obs discard_resource "report_skipped")
      discard_resource (λ obs. record { only_object = refl; announced = inr refl })
      (λ obs. inr refl)

-- Every filter that a definition builds is sound.
abbrev pub DefinitionSound : String × FilterDefinition → Type 0
DefinitionSound (name, def) = (options : FilterOptions) → Sound def.action (def.build options)

configured-Sound :
    (reason : String) (f : Filter) (options : FilterOptions)
    → Sound keep_modified f
    → Sound keep_modified (configured_paths reason f options)
configured-Sound reason f options sound = elim (Bool-cases (not (is_empty options.remove_paths))) [
  | inl paths ↦ rw paths (path_remove-Sound options.name reason options.remove_paths)
  | inr without ↦ rw without sound
]

-- `◌▸◌` puts a proof for the head of a list in front of the proofs for its rest.
infixr 5 ◌▸◌
abbrev ◌▸◌ : {A B : Type 0} → A → B → A × B
h ▸ hs = (h, hs)

module _ (r : Readers) where
  secret_sound : Sound keep_modified secret_redaction
  secret_sound =
      modifying_sound secret_redaction.name secret_redaction-Honest Outcomes-secret_redaction

  managed_sound : Sound keep_modified managed_fields
  managed_sound = modifying_sound managed_fields.name managed_fields-Honest Outcomes-managed_fields

  version_sound : Sound keep_modified resource_version
  version_sound =
      modifying_sound resource_version.name resource_version-Honest Outcomes-resource_version

  timestamps_sound : Sound keep_modified condition_timestamps
  timestamps_sound =
      modifying_sound condition_timestamps.name condition_timestamps-Honest
        Outcomes-condition_timestamps

  set_sound : Sound keep_modified condition_set
  set_sound = modifying_sound condition_set.name condition_set-Honest Outcomes-condition_set

  leader_sound : Sound keep_modified leader_election
  leader_sound =
      modifying_sound leader_election.name leader_election-Honest Outcomes-leader_election

  autoscaler_sound : Sound keep_modified (cluster_autoscaler r.parse r.print)
  autoscaler_sound =
      modifying_sound (cluster_autoscaler r.parse r.print).name
        (cluster_autoscaler-Honest r.parse r.print) (Outcomes-cluster_autoscaler r.parse r.print)

  gke_sound : Sound keep_modified (gke_webhook r.read)
  gke_sound =
      modifying_sound (gke_webhook r.read).name (gke_webhook-Honest r.read)
        (gke_webhook-outcome r.read)

  built_in_filters-Sound : All DefinitionSound (built_in_filters r)
  built_in_filters-Sound =
      (λ o. secret_sound)
      ▸ (λ o. secret_sound)
      ▸ (λ o. configured-Sound "managed_fields_removed" managed_fields o managed_sound)
      ▸ (λ o. configured-Sound "managed_fields_removed" managed_fields o managed_sound)
      ▸ (λ o. configured-Sound "resource_version_removed" resource_version o version_sound)
      ▸ (λ o. configured-Sound "resource_version_removed" resource_version o version_sound)
      ▸ (λ o.
          configured-Sound "condition_timestamps_removed" condition_timestamps o timestamps_sound)
      ▸ (λ o.
          configured-Sound "condition_timestamps_removed" condition_timestamps o timestamps_sound)
      ▸ (λ o. set_sound)
      ▸ (λ o. set_sound)
      ▸ (λ o. path_remove-Sound o.name "metadata_generation_removed" o.remove_paths)
      ▸ (λ o. path_remove-Sound o.name "metadata_generation_removed" o.remove_paths)
      ▸ (λ o. configured-Sound "leader_annotation_removed" leader_election o leader_sound)
      ▸ (λ o. configured-Sound "leader_annotation_removed" leader_election o leader_sound)
      ▸ (λ o. path_remove-Sound o.name "event_series_removed" o.remove_paths)
      ▸ (λ o. path_remove-Sound o.name "event_series_removed" o.remove_paths)
      ▸ (λ o. autoscaler_sound)
      ▸ (λ o. autoscaler_sound)
      ▸ (λ o. gke_sound)
      ▸ (λ o. gke_sound)
      ▸ (λ o. lease_skip-Sound)
      ▸ (λ o. lease_skip-Sound)
      ▸ (λ o. report_skip-Sound)
      ▸ (λ o. report_skip-Sound)
      ▸ tt

  find-Sound :
      (defs : List (String × FilterDefinition)) (name : String) (def : FilterDefinition)
      → All DefinitionSound defs
      → find name defs ≡ some def
      → (options : FilterOptions) → Sound def.action (def.build options)
  unfolding find
  find-Sound [] name def sound found = absurd (cc found)
  find-Sound ((n, d) ∷ defs) name def sound found = elim (Bool-cases (n == name)) [
    | inl here ↦
        let same : d ≡ def = some_inj (rw here at found) in
        subst (λ x. (options : FilterOptions) → Sound x.action (x.build options)) same sound.0
    | inr other ↦ find-Sound defs name def sound.1 (rw other at found)
  ]

  -- A filter that is built by name touches nothing but the object, changes it only where its decision
  -- says so, and decides nothing but to keep the observation or to take the action of that name.
  pub new_built_in_filter-Sound :
      (name : String) (options : FilterOptions) (f : Filter) (action : Outcome)
      → new_built_in_filter r name options ≡ ok (f, action)
      → Sound action f
  unfolding new_built_in_filter
  new_built_in_filter-Sound name options f action built =
      elim (Option-cases (find name (built_in_filters r))) [
        | inl absent ↦ absurd (cc (rw (new_built_in_filter, absent) at built))
        | inr (def, found) ↦
            let named = if options.name == "" then record options { name = name } else options in
            let same = ok_inj (rw (new_built_in_filter, found) at built) in
            subst (λ (x : Filter × Outcome). Sound x.1 x.0) same
              (find-Sound (built_in_filters r) name def built_in_filters-Sound found named)
      ]
