-- ===== src/Value/Size.antt =====
-- `valueSize`: the approximate bytes of a tree value.
use Prim.Native.String.{len}
use wlog.Base.{ℕ, ◌+◌, ◌≡◌, String, none, arith, str_eq, Bool-cases, inl, inr}
use wlog.Value.Maps.{get, put}
use wlog.Value.{
  Value, Fields, Items, null, bool, str, int, go_int, uint, float, number, object, array, strings,
  string_map, other, nil, cons, end, field,
}

unfoldable mutual
  pub value_size : Value → ℕ
  value_size null = 0
  value_size (str s) = len s
  value_size (bool b) = 1
  value_size (int n) = 8
  value_size (uint n) = 8
  value_size (float n) = 8
  value_size (number s) = len s
  value_size (object m) = fields_size m
  value_size (array xs) = items_size xs
  value_size (strings _) = 16
  value_size (string_map _) = 16
  value_size (go_int _) = 16
  value_size (other _) = 16

  pub fields_size : Fields → ℕ
  fields_size end = 0
  fields_size (field k v m) = len k + 8 + value_size v + fields_size m

  pub items_size : Items → ℕ
  items_size nil = 0
  items_size (cons v xs) = 8 + value_size v + items_size xs

-- A new key adds its entry to the size of a map.
pub fields_size-put :
    (k : String) (v : Value) (m : Fields)
    → get k m ≡ none
    → fields_size (put k v m) ≡ fields_size m + (len k + 8 + value_size v)
unfolding get put value_size
fields_size-put k v end h = omega arith
fields_size-put k v (field j w m) h = elim (Bool-cases (str_eq j k)) [
  | inl same ↦ cc (rw same at h)
  | inr apart ↦ rw apart (omega (arith, fields_size-put k v m (rw apart at h)))
]
