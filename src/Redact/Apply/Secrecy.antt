-- ===== src/Redact/Apply/Secrecy.antt =====
-- What a masked event tells of the values that the denylist names: nothing.
use wlog.Base.{
  ℕ, suc, ◌+◌, ◌≡◌, refl, ap, ap₂, sym, ◌∙◌, Bool, true, false, none, List, [], ◌∷◌, ◌++◌, String,
  if◌then◌else◌, ltb,
}
use wlog.Value.{Value, Fields, Items, object, array, str, nil, cons, end, field}
use wlog.Redact.Apply.{
  Library, Redactor, denied, mask_value, mask_with, apply_map, apply_value, apply_items,
  run_transforms, apply,
}

-- Two events that differ only in the values of denied keys of maps with values of any type.
mutual
  pub data SameFields (l : Library) (r : Redactor) : List String → Fields → Fields → Type 0 where
    same_end : {path : List String} → SameFields l r path end end
    secret :
        {path : List String} {k : String} {v w : Value} {m n : Fields}
        → denied l r (path ++ k ∷ []) k ≡ true
        → SameFields l r path m n
        → SameFields l r path (field k v m) (field k w n)
    shown :
        {path : List String} {k : String} {v w : Value} {m n : Fields}
        → SameValue l r (path ++ k ∷ []) v w
        → SameFields l r path m n
        → SameFields l r path (field k v m) (field k w n)

  pub data SameValue (l : Library) (r : Redactor) : List String → Value → Value → Type 0 where
    alike : {path : List String} {v : Value} → SameValue l r path v v
    objects :
        {path : List String} {m n : Fields}
        → SameFields l r path m n
        → SameValue l r path (object m) (object n)
    arrays :
        {path : List String} {xs ys : Items}
        → SameItems l r path xs ys
        → SameValue l r path (array xs) (array ys)

  pub data SameItems (l : Library) (r : Redactor) : List String → Items → Items → Type 0 where
    same_nil : {path : List String} → SameItems l r path nil nil
    same_cons :
        {path : List String} {v w : Value} {xs ys : Items}
        → SameValue l r path v w
        → SameItems l r path xs ys
        → SameItems l r path (cons v xs) (cons w ys)

mask_value-fixed :
    (r : Redactor) (v w : Value) → r.replace_func ≡ none → mask_value r v ≡ mask_value r w
unfolding mask_value mask_with
mask_value-fixed r v w fixed =
    ap (λ f. mask_with r f v) fixed ∙ sym (ap (λ f. mask_with r f w) fixed)

if_ap :
    {A : Type 0} {x x' y y' : A} (b : Bool)
    → x ≡ x'
    → y ≡ y'
    → (if b then x else y) ≡ (if b then x' else y')
if_ap true e f = e
if_ap false e f = f

module _ (l : Library) (r : Redactor) (fixed : r.replace_func ≡ none) where
  mutual
    unfolding apply_map apply_value apply_items

    apply_map-Same :
        (path : List String) (depth : ℕ) {m n : Fields}
        → SameFields l r path m n
        → apply_map l r path depth m ≡ apply_map l r path depth n
    apply_map-Same path depth same_end = refl
    apply_map-Same path depth (secret {k = k} {v} {w} d same) =
        rw d (ap₂ (field k) (mask_value-fixed r v w fixed) (apply_map-Same path depth same))
    apply_map-Same path depth (shown {k = k} {v} {w} s same) =
        ap₂ (field k)
          (if_ap (denied l r (path ++ k ∷ []) k) (mask_value-fixed r v w fixed)
            (apply_value-Same (path ++ k ∷ []) depth s))
          (apply_map-Same path depth same)

    apply_value-Same :
        (path : List String) (depth : ℕ) {v w : Value}
        → SameValue l r path v w
        → apply_value l r path depth v ≡ apply_value l r path depth w
    apply_value-Same path depth alike = refl
    apply_value-Same path depth (objects same) =
        ap (λ inner. if ltb r.max_depth (depth + 1) then str "[REDACTED:DEPTH]" else object inner)
          (apply_map-Same path (suc depth) same)
    apply_value-Same path depth (arrays same) =
        ap (λ inner. if ltb r.max_depth (depth + 1) then str "[REDACTED:DEPTH]" else array inner)
          (apply_items-Same path (suc depth) same)

    apply_items-Same :
        (path : List String) (depth : ℕ) {xs ys : Items}
        → SameItems l r path xs ys
        → apply_items l r path depth xs ≡ apply_items l r path depth ys
    apply_items-Same path depth same_nil = refl
    apply_items-Same path depth (same_cons s same) =
        ap₂ cons (apply_value-Same path depth s) (apply_items-Same path depth same)

pub apply-on :
    (l : Library) (r : Redactor) (e : Fields)
    → r.disabled ≡ false
    → apply l r e ≡ apply_map l r [] 0 (run_transforms r.transforms e)
unfolding apply
apply-on l r e on = ap (λ b. if b then e else apply_map l r [] 0 (run_transforms r.transforms e)) on

-- With a redactor that is on and a fixed replacement, two events that, after the transforms, differ
-- only in the values of denied keys of maps with values of any type, at any depth of such maps and of
-- slices, come out of Apply the same. Maps of texts, whose keys Apply does not ask the denylist about,
-- are to be the same in both.
pub apply-Same :
    (l : Library) (r : Redactor) (e d : Fields)
    → r.disabled ≡ false
    → r.replace_func ≡ none
    → SameFields l r [] (run_transforms r.transforms e) (run_transforms r.transforms d)
    → apply l r e ≡ apply l r d
apply-Same l r e d on fixed same =
    apply-on l r e on ∙ apply_map-Same l r fixed [] 0 same ∙ sym (apply-on l r d on)
