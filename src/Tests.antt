-- ===== src/Tests.antt =====
-- The data that the tests share: references, observations and conditions.
mod Filters
mod Conditions
mod Paths
mod Naming
mod Ingest
mod Collector
pub mod Watch
mod Defaults
mod Deletions
mod Configured
use kube_insight.Prelude.{String, ℕ, Option, none, some, false, List, [], ◌∷◌}
use kube_insight.Json.{Value, Fields, Items, end, field, str, obj, arr, nil, cons}
use kube_insight.Core.{ResourceRef, Observation, modified}

abbrev pub ref_of : (group version resource kind namespace name : String) → ResourceRef
ref_of group version resource kind namespace name = record {
  cluster_id = "local";
  group = group;
  version = version;
  resource = resource;
  kind = kind;
  namespace = namespace;
  name = name;
  uid = "";
}

abbrev pub observed : ResourceRef → Fields → Observation
observed ref object = record {
  type = modified;
  observed_at = 0;
  resource_version = "";
  ref = ref;
  object = some object;
  partial = false;
}

abbrev pub secret_ref : ResourceRef
secret_ref = ref_of "" "v1" "secrets" "Secret" "shop" "token"

abbrev pub pod_ref : ResourceRef
pod_ref = ref_of "" "v1" "pods" "Pod" "shop" "api-1"

abbrev pub secret_object : Fields
secret_object =
    field "kind" (str "Secret")
      (field "data" (obj (field "password" (str "aHVudGVy") end)) (field "type" (str "Opaque") end))

abbrev pub secret : Observation
secret = observed secret_ref secret_object

-- One condition of a status.
abbrev pub condition : (type status at : String) → Value
condition type status at = obj (
    field "type" (str type) (field "status" (str status) (field "lastTransitionTime" (str at) end)))

abbrev pub conditions : List Value
conditions = condition "Ready" "True" "10:00" ∷ condition "Initialized" "True" "09:00" ∷ []

abbrev pub pod : Observation
pod = observed pod_ref (
    field "status"
      (obj (
        field "conditions"
          (arr (
            cons (condition "Ready" "True" "10:00")
              (cons (condition "Initialized" "True" "09:00") nil)))
          end))
      end)
