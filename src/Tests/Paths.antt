-- ===== src/Tests/Paths.antt =====
-- Runs of the removal of JSON pointers.
use kube_insight.Prelude.{String, List, [], ◌∷◌, ◌≡◌, refl}
use kube_insight.Json.{Fields, Value, str, obj, arr, end, field, nil, cons, get, set, delete}
use kube_insight.Filter.Paths.{remove_path, remove_step, index_of}
use kube_insight.Filter.Paths.Laws.{remove_path_idem}
use kube_insight.Filter.Paths.Resolves.{resolves, one_if, remove_path-resolves}

abbrev document : Value
document = obj (
    field "spec" (obj (field "ports" (arr (cons (obj (field "port" (str "80") end)) nil)) end)) end)

abbrev pointer : List String
pointer = "spec" ∷ "ports" ∷ "0" ∷ "port" ∷ []

removed :
    remove_path pointer document
    ≡ (obj (field "spec" (obj (field "ports" (arr (cons (obj end) nil)) end)) end), 1)
unfolding remove_path remove_step get set index_of delete
removed = refl

absent : (remove_path ("status" ∷ []) document).1 ≡ 0
unfolding remove_path remove_step get set index_of delete
absent = refl

remove_path_idem_example :
    remove_path
      ("spec" ∷ "ports" ∷ "*" ∷ "port" ∷ [])
      (remove_path ("spec" ∷ "ports" ∷ "*" ∷ "port" ∷ []) document).0
    ≡ ((remove_path ("spec" ∷ "ports" ∷ "*" ∷ "port" ∷ []) document).0, 0)
remove_path_idem_example = remove_path_idem ("spec" ∷ "ports" ∷ "*" ∷ "port" ∷ []) document

remove_path-resolves_example : (remove_path pointer document).1 ≡ one_if (resolves pointer document)
remove_path-resolves_example =
    remove_path-resolves pointer document
      ((λ e. cc e), ((λ e. cc e), ((λ e. cc e), ((λ e. cc e), tt))))

abbrev fields : Fields
fields = field "status" (obj end) (field "spec" (str "kept") end)
