-- ===== src/Value/Maps.antt =====
-- Go's operations on a `map[string]any` and on a `[]any`.
use wlog.Base.{
  ℕ, suc, ◌+◌, ◌≡◌, refl, String, Bool, true, false, Option, none, some, List, [], ◌∷◌, arith,
  str_eq, eq_iff, if◌then◌else◌,
}
use wlog.Value.{Value, Fields, Items, end, field, object, array, nil, cons}

unfoldable pub get : String → Fields → Option Value
get _ end = none
get key (field name v rest) = if str_eq name key then some v else get key rest

unfoldable pub put : String → Value → Fields → Fields
put key v end = field key v end
put key v (field name old rest) =
    let after = put key v rest in if str_eq name key then field key v rest else field name old after

unfoldable pub delete : String → Fields → Fields
delete k end = end
delete k (field j w m) = let rest = delete k m in if str_eq j k then rest else field j w rest

abbrev pub found : Option Value → Bool
found none = false
found (some v) = true

abbrev pub has : String → Fields → Bool
has k m = found (get k m)

-- `len` of a map and of a slice.
unfoldable pub size : Fields → ℕ
size end = 0
size (field k v m) = suc (size m)

unfoldable pub count : Items → ℕ
count nil = 0
count (cons v xs) = suc (count xs)

-- `append(xs, v)`
unfoldable pub push : Items → Value → Items
push nil v = cons v nil
push (cons x xs) v = cons x (push xs v)

unfoldable pub keys : Fields → List String
keys end = []
keys (field k v m) = k ∷ keys m

-- `v.(map[string]any)` and `v.([]any)`, of a key that may be missing.
abbrev pub as_object : Option Value → Option Fields
as_object (some (object m)) = some m
as_object _ = none

abbrev pub as_array : Option Value → Option Items
as_array (some (array xs)) = some xs
as_array _ = none

pub get-put :
    (k j : String) (v : Value) (m : Fields)
    → get j (put k v m) ≡ (if str_eq k j then some v else get j m)
unfolding get put
get-put k j v end = refl
get-put key asked v (field name old rest) =
    let later = get-put key asked v rest in
    ground (arith, later, eq_iff name key, eq_iff name asked, eq_iff key asked)

pub get-delete :
    (k j : String) (m : Fields) → get j (delete k m) ≡ (if str_eq k j then none else get j m)
unfolding get delete
get-delete k j end = ground arith
get-delete key asked (field name old rest) =
    let later = get-delete key asked rest in
    ground (arith, later, eq_iff name key, eq_iff name asked, eq_iff key asked)

pub size-put :
    (k : String) (v : Value) (m : Fields)
    → size (put k v m) ≡ (if has k m then size m else size m + 1)
unfolding get put size
size-put k v end = ground arith
size-put k v (field j w m) = ground (arith, size-put k v m)

pub count-push : (xs : Items) (v : Value) → count (push xs v) ≡ count xs + 1
unfolding count push
count-push nil v = omega arith
count-push (cons x xs) v = omega (arith, count-push xs v)

pub has-put :
    (k j : String) (v : Value) (m : Fields)
    → has j (put k v m) ≡ (if str_eq k j then true else has j m)
has-put k j v m = rw (get-put k j v m) (ground arith)
