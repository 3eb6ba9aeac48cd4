-- ===== src/Json/Laws.antt =====
-- What a read sees after a write or a deletion.
use kube_insight.Prelude.{String, ◌≡◌, refl, none, some, arith, if◌then◌else◌, ◌==◌, eq_iff}
use kube_insight.Json.{Value, Fields, end, field, get, delete, set}

pub get-delete :
    (j k : String) (m : Fields) → get j (delete k m) ≡ (if k == j then none else get j m)
unfolding get delete
get-delete j k end = ground arith
get-delete j k (field i v m) = ground (arith, eq_iff i k, eq_iff i j, eq_iff k j, get-delete j k m)

pub get-set :
    (j k : String) (v : Value) (m : Fields)
    → get j (set k v m) ≡ (if k == j then some v else get j m)
unfolding get set
get-set j k v end = refl
get-set j k v (field i w m) = ground (arith, eq_iff i k, eq_iff i j, eq_iff k j, get-set j k v m)

-- Deleting a key that is not there changes nothing.
pub delete_absent : (k : String) (m : Fields) → get k m ≡ none → delete k m ≡ m
unfolding get delete
delete_absent k end h = refl
delete_absent k (field j v m) h = ground (arith, delete_absent k m)

-- Writing back what is read changes nothing.
pub set_same : (k : String) (v : Value) (m : Fields) → get k m ≡ some v → set k v m ≡ m
unfolding get set
set_same k v end h = cc
set_same k v (field j w m) h = ground (arith, set_same k v m, eq_iff j k)

pub set-set : (k : String) (v w : Value) (m : Fields) → set k v (set k w m) ≡ set k v m
unfolding set
set-set k v w end = ground (arith, eq_iff k k)
set-set k v w (field j x m) = ground (arith, eq_iff j k, eq_iff k k, set-set k v w m)
