-- ===== src/Redact/Apply/Depth.antt =====
-- How deep a masked event is.
use Prim.Native.String.{len}
use wlog.Base.{
  str_eq, ℕ, suc, ◌+◌, ◌≤◌, max, ◌≡◌, refl, Bool, true, false, Option, none, some, List, [], ◌∷◌,
  ◌++◌, String, if◌then◌else◌, ltb, Bool-cases, inl, inr, arith,
}
use wlog.Value.{
  Value, Fields, Items, null, bool, str, int, go_int, uint, float, number, object, array, strings,
  string_map, other, nil, cons, end, field,
}
use wlog.Redact.Apply.{
  Library, Redactor, denied, mask_value, mask_with, apply_map, apply_value, apply_items,
  apply_integer, apply_text, apply_texts, apply_patterns, run_transforms, apply,
}
use wlog.Redact.Apply.Secrecy.{apply-on}

-- The levels of maps and slices below a value.
mutual
  pub nesting : Value → ℕ
  nesting (object m) = suc (fields_nesting m)
  nesting (array xs) = suc (items_nesting xs)
  nesting (strings xs) = 1
  nesting (string_map m) = 1
  nesting _ = 0

  pub fields_nesting : Fields → ℕ
  fields_nesting end = 0
  fields_nesting (field k v m) = max (nesting v) (fields_nesting m)

  pub items_nesting : Items → ℕ
  items_nesting nil = 0
  items_nesting (cons v xs) = max (nesting v) (items_nesting xs)

if_flat :
    (b : Bool) (v w : Value) → nesting v ≡ 0 → nesting w ≡ 0 → nesting (if b then v else w) ≡ 0
if_flat true v w e f = e
if_flat false v w e f = f

apply_text-flat :
    (l : Library) (r : Redactor) (path : List String) (x : String)
    → nesting (apply_text l r path x) ≡ 0
unfolding apply_text nesting
apply_text-flat l r path x =
    if_flat (ltb r.max_string_scan (len x)) (str "[REDACTED:TOO_LARGE]")
      (str (apply_patterns l r path x)) refl refl

apply_integer-flat :
    (l : Library) (r : Redactor) (text : String) (v : Value)
    → nesting v ≡ 0
    → nesting (apply_integer l r text v) ≡ 0
unfolding apply_integer nesting
apply_integer-flat l r text v e =
    if_flat (ltb (len text) 13) v
      (if str_eq (apply_patterns l r [] text) text then v else str (apply_patterns l r [] text)) e
      (if_flat (str_eq (apply_patterns l r [] text) text) v (str (apply_patterns l r [] text)) e
        refl)

mask_with-flat :
    (r : Redactor) (f : Option (String → Option String)) (v : Value) → nesting (mask_with r f v) ≡ 0
unfolding mask_with nesting
mask_with-flat r none v = refl
mask_with-flat r (some f) (str s) = refl
mask_with-flat r (some f) null = refl
mask_with-flat r (some f) (bool b) = refl
mask_with-flat r (some f) (int n) = refl
mask_with-flat r (some f) (go_int n) = refl
mask_with-flat r (some f) (uint n) = refl
mask_with-flat r (some f) (float n) = refl
mask_with-flat r (some f) (number s) = refl
mask_with-flat r (some f) (object m) = refl
mask_with-flat r (some f) (array xs) = refl
mask_with-flat r (some f) (strings xs) = refl
mask_with-flat r (some f) (string_map m) = refl
mask_with-flat r (some f) (other n) = refl

apply_texts-flat :
    (l : Library) (r : Redactor) (path : List String) (m : List (String × String))
    → fields_nesting (apply_texts l r path m) ≡ 0
unfolding apply_texts fields_nesting
apply_texts-flat l r path [] = refl
apply_texts-flat l r path ((k, x) ∷ m) =
    rw (apply_text-flat l r (path ++ k ∷ []) x, apply_texts-flat l r path m) refl

-- The nesting that a map or a slice gets, which is cut where it would be too deep.
if_cut :
    (limit depth n : ℕ) (v : Value)
    → depth ≤ limit
    → (suc depth ≤ limit → n + suc depth ≤ suc limit)
    → nesting v ≡ suc n
    → nesting (if ltb limit (depth + 1) then str "[REDACTED:DEPTH]" else v) + depth ≤ suc limit
unfolding nesting
if_cut limit depth n v ok inner e = elim (Bool-cases (ltb limit (depth + 1))) [
  | inl deep ↦ rw deep (omega (arith, ok))
  | inr fits ↦ rw (fits, e) (let h = inner (ground (arith, fits)) in omega (arith, h))
]

module _ (l : Library) (r : Redactor) where
  mutual
    unfolding apply_map apply_value apply_items nesting mask_value

    apply_map-nesting :
        (path : List String) (depth : ℕ) (m : Fields)
        → depth ≤ r.max_depth
        → fields_nesting (apply_map l r path depth m) + depth ≤ suc r.max_depth
    apply_map-nesting path depth end ok = omega (arith, ok)
    apply_map-nesting path depth (field k v m) ok =
        let later = apply_map-nesting path depth m ok in
        elim (Bool-cases (denied l r (path ++ k ∷ []) k)) [
          | inl d ↦
              let flat : nesting (mask_value r v) ≡ 0 = mask_with-flat r r.replace_func v in
              rw (d, flat) (omega (arith, later))
          | inr walked ↦
              let here = apply_value-nesting (path ++ k ∷ []) depth v ok in
              rw walked (omega (arith, here, later))
        ]

    apply_value-nesting :
        (path : List String) (depth : ℕ) (v : Value)
        → depth ≤ r.max_depth
        → nesting (apply_value l r path depth v) + depth ≤ suc r.max_depth
    apply_value-nesting path depth (object m) ok =
        if_cut r.max_depth depth _ (object (apply_map l r path (suc depth) m)) ok
          (apply_map-nesting path (suc depth) m) refl
    apply_value-nesting path depth (array xs) ok =
        if_cut r.max_depth depth _ (array (apply_items l r path (suc depth) xs)) ok
          (apply_items-nesting path (suc depth) xs) refl
    apply_value-nesting path depth (strings xs) ok = omega (arith, ok)
    apply_value-nesting path depth (string_map m) ok =
        rw (apply_texts-flat l r path m) (omega (arith, ok))
    apply_value-nesting path depth (str x) ok = rw (apply_text-flat l r path x) (omega (arith, ok))
    apply_value-nesting path depth (int n) ok =
        rw (apply_integer-flat l r (l.format_int n) (int n) refl) (omega (arith, ok))
    apply_value-nesting path depth (go_int n) ok =
        rw (apply_integer-flat l r (l.format_int n) (go_int n) refl) (omega (arith, ok))
    apply_value-nesting path depth (uint n) ok =
        rw (apply_integer-flat l r (l.format_uint n) (uint n) refl) (omega (arith, ok))
    apply_value-nesting path depth (number s) ok =
        rw (apply_integer-flat l r s (number s) refl) (omega (arith, ok))
    apply_value-nesting path depth null ok = omega (arith, ok)
    apply_value-nesting path depth (bool b) ok = omega (arith, ok)
    apply_value-nesting path depth (float f) ok = omega (arith, ok)
    apply_value-nesting path depth (other n) ok = omega (arith, ok)

    apply_items-nesting :
        (path : List String) (depth : ℕ) (xs : Items)
        → depth ≤ r.max_depth
        → items_nesting (apply_items l r path depth xs) + depth ≤ suc r.max_depth
    apply_items-nesting path depth nil ok = omega (arith, ok)
    apply_items-nesting path depth (cons v xs) ok =
        let here = apply_value-nesting path depth v ok in
        let later = apply_items-nesting path depth xs ok in omega (arith, here, later)

-- What Apply of a redactor that is on writes has at most one level of maps and slices more than the
-- depth limit, however deep the event is.
pub apply-nesting :
    (l : Library) (r : Redactor) (event : Fields)
    → r.disabled ≡ false
    → fields_nesting (apply l r event) ≤ suc r.max_depth
apply-nesting l r event on = rw (apply-on l r event on) (
    let h = apply_map-nesting l r [] 0 (run_transforms r.transforms event) (omega arith) in
    omega (arith, h))
