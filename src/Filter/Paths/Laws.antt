-- ===== src/Filter/Paths/Laws.antt =====
-- What the removal of a path leaves alone, and that nothing is left to remove.
use kube_insight.Prelude.{
  String, Bool, none, some, ◌==◌, ◌≡◌, refl, ℕ, zero, suc, List, [], ◌∷◌, arith, Bool-cases,
  Option-cases, inl, inr, eq_refl, is_empty,
}
use kube_insight.Json.{Value, Items, Fields, nil, cons, end, field, obj, arr, get, set}
use kube_insight.Json.Laws.{get-delete, get-set, set_same, set-set}
use kube_insight.Filter.Paths.{
  each_field, each_item, at_index, at_key, delete_key, remove_step, remove_path, index_of,
}

module _ (f : Value → Value × ℕ) (k : String) (m : Fields) where
  pub at_key-none : get k m ≡ none → at_key f k m ≡ (m, 0)
  unfolding at_key
  at_key-none e = rw (e, at_key)

  pub at_key-some : {v : Value} → get k m ≡ some v → at_key f k m ≡ (set k (f v).0 m, (f v).1)
  unfolding at_key
  at_key-some e = rw (e, at_key)

-- When the children are left alone where nothing is removed from them.
module _ (f : Value → Value × ℕ) (same : (v : Value) → (f v).1 ≡ 0 → (f v).0 ≡ v) where
  each_field_zero : (m : Fields) → (each_field f m).1 ≡ 0 → (each_field f m).0 ≡ m
  unfolding each_field
  each_field_zero end h = refl
  each_field_zero (field k v m) h = ground (arith, same v, each_field_zero m)

  each_item_zero : (vs : Items) → (each_item f vs).1 ≡ 0 → (each_item f vs).0 ≡ vs
  unfolding each_item
  each_item_zero nil h = refl
  each_item_zero (cons v vs) h = ground (arith, same v, each_item_zero vs)

  at_index_zero : (i : ℕ) (vs : Items) → (at_index f i vs).1 ≡ 0 → (at_index f i vs).0 ≡ vs
  unfolding at_index
  at_index_zero i nil h = refl
  at_index_zero zero (cons v vs) h = ground (arith, same v)
  at_index_zero (suc i) (cons v vs) h = ground (arith, at_index_zero i vs)

  at_key_zero : (k : String) (m : Fields) → (at_key f k m).1 ≡ 0 → (at_key f k m).0 ≡ m
  at_key_zero k m h = elim (Option-cases (get k m)) [
    | inl e ↦ rw (at_key-none f k m e)
    | inr (v, e) ↦
        let zero_child : (f v).1 ≡ 0 = rw (at_key-some f k m e) at h in
        rw (at_key-some f k m e) (rw (same v zero_child) (set_same k v m e))
  ]

  delete_key_zero : (k : String) (m : Fields) → (delete_key k m).1 ≡ 0 → (delete_key k m).0 ≡ m
  unfolding delete_key
  delete_key_zero k m h = ground arith

  remove_step_zero :
      (part : String) (last : Bool) (v : Value)
      → (remove_step part last f v).1 ≡ 0
      → (remove_step part last f v).0 ≡ v
  unfolding remove_step
  remove_step_zero part last (obj m) h =
      ground (arith, delete_key_zero part m, each_field_zero m, at_key_zero part m)
  remove_step_zero part last (arr vs) h = grind (arith, each_item_zero vs, at_index_zero)
  remove_step_zero part last _ h = refl

-- When nothing is removed from a child a second time.
module _ (f : Value → Value × ℕ) (again : (v : Value) → f (f v).0 ≡ ((f v).0, 0)) where
  each_field_idem : (m : Fields) → each_field f (each_field f m).0 ≡ ((each_field f m).0, 0)
  unfolding each_field
  each_field_idem end = refl
  each_field_idem (field k v m) = ground (arith, again v, each_field_idem m)

  each_item_idem : (vs : Items) → each_item f (each_item f vs).0 ≡ ((each_item f vs).0, 0)
  unfolding each_item
  each_item_idem nil = refl
  each_item_idem (cons v vs) = ground (arith, again v, each_item_idem vs)

  at_index_idem : (i : ℕ) (vs : Items) → at_index f i (at_index f i vs).0 ≡ ((at_index f i vs).0, 0)
  unfolding at_index
  at_index_idem i nil = refl
  at_index_idem zero (cons v vs) = ground (arith, again v)
  at_index_idem (suc i) (cons v vs) = ground (arith, at_index_idem i vs)

  at_key_idem : (k : String) (m : Fields) → at_key f k (at_key f k m).0 ≡ ((at_key f k m).0, 0)
  at_key_idem k m = elim (Option-cases (get k m)) [
    | inl e ↦ rw (at_key-none f k m e) (at_key-none f k m e)
    | inr (v, e) ↦
        let found : get k (set k (f v).0 m) ≡ some (f v).0 =
          ground (arith, get-set k k (f v).0 m, eq_refl k) in
        rw (at_key-some f k m e)
          (rw (at_key-some f k (set k (f v).0 m) found, again v, set-set k (f v).0 (f v).0 m))
  ]

  delete_key_idem :
      (k : String) (m : Fields) → delete_key k (delete_key k m).0 ≡ ((delete_key k m).0, 0)
  unfolding delete_key
  delete_key_idem k m = ground (arith, get-delete k k m, eq_refl k)

  remove_step_idem :
      (part : String) (last : Bool) (v : Value)
      → remove_step part last f (remove_step part last f v).0 ≡ ((remove_step part last f v).0, 0)
  unfolding remove_step
  remove_step_idem part last (obj m) =
      ground (arith, delete_key_idem part m, each_field_idem m, at_key_idem part m)
  remove_step_idem part last (arr vs) = elim (Bool-cases (part == "*")) [
    | inl wild ↦ rw wild (ground (arith, each_item_idem vs))
    | inr plain ↦ elim (Option-cases (index_of part)) [
      | inl e ↦ rw (plain, e) (rw (plain, e))
      | inr (i, e) ↦ rw (plain, e) (rw (plain, e) (ground (arith, at_index_idem i vs)))
    ]
  ]
  remove_step_idem part last _ = refl

-- Where removePath counts no removed field the value is the same, whatever the path.
pub remove_path_zero :
    (parts : List String) (v : Value) → (remove_path parts v).1 ≡ 0 → (remove_path parts v).0 ≡ v
unfolding remove_path
remove_path_zero [] v h = refl
remove_path_zero (part ∷ parts) v h =
    remove_step_zero (remove_path parts) (remove_path_zero parts) part (is_empty parts) v h

-- Removing a path a second time removes nothing, whether the path has wildcards or not.
pub remove_path_idem :
    (parts : List String) (v : Value)
    → remove_path parts (remove_path parts v).0 ≡ ((remove_path parts v).0, 0)
unfolding remove_path
remove_path_idem [] v = refl
remove_path_idem (part ∷ parts) v =
    remove_step_idem (remove_path parts) (remove_path_idem parts) part (is_empty parts) v
