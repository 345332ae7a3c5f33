-- ===== src/Stages/Finalize/Reserved.antt =====
-- What finalizeSize leaves of an event.
use wlog.Base.{
  ℕ, ◌≤◌, ◌≡◌, refl, ap, subst, ◌∙◌, Bool, true, false, not, Option, none, some, List, [], ◌∷◌,
  String, str_eq, if◌then◌else◌, leb, all, Bool-cases, inl, inr, arith, length, eq_iff,
}
use wlog.Value.{Value, Fields, end, field, object}
use wlog.Value.Maps.{get, delete, as_object, get-delete, get-put}
use wlog.Value.Size.{fields_size}
use wlog.Event.{max_event_size}
use wlog.Stages.Finalize.{
  is_reserved_key, user_sizes, before, insert_sorted, sorted, Trim, trim, with_note, noted, note,
  trimmed, finalize_size,
}

-- Every key of a list is a user key.
pub AllUser : List (String × ℕ) → Type 0
AllUser xs = all (λ x. not (is_reserved_key x.0)) xs ≡ true

user_sizes-AllUser : (m : Fields) → AllUser (user_sizes m)
unfolding user_sizes AllUser
user_sizes-AllUser end = refl
user_sizes-AllUser (field k v m) = elim (Bool-cases (is_reserved_key k)) [
  | inl reserved ↦ rw reserved (user_sizes-AllUser m)
  | inr user ↦ rw user (rw user (user_sizes-AllUser m))
]

insert_sorted-AllUser :
    (x : String × ℕ) (ys : List (String × ℕ))
    → is_reserved_key x.0 ≡ false
    → AllUser ys
    → AllUser (insert_sorted x ys)
unfolding insert_sorted AllUser
insert_sorted-AllUser x [] user h = rw user refl
insert_sorted-AllUser x (y ∷ ys) user h = elim (Bool-cases (before x y)) [
  | inl first ↦ rw first (rw user h)
  | inr later ↦ rw later (ground (arith, h, insert_sorted-AllUser x ys user (ground (arith, h))))
]

sorted-AllUser : (xs : List (String × ℕ)) → AllUser xs → AllUser (sorted xs)
unfolding sorted AllUser
sorted-AllUser [] h = refl
sorted-AllUser (x ∷ xs) h =
    insert_sorted-AllUser x (sorted xs) (ground (arith, h)) (sorted-AllUser xs (ground (arith, h)))

-- A user key is not a reserved one.
get-delete_user :
    (k j : String) (m : Fields)
    → is_reserved_key k ≡ false
    → is_reserved_key j ≡ true
    → get j (delete k m) ≡ get j m
get-delete_user k j m user reserved = elim (Bool-cases (str_eq k j)) [
  | inl same ↦ let (to, _) = eq_iff k j in let clash = ap is_reserved_key (to same) in cc
  | inr apart ↦ get-delete k j m ∙ ap (λ b. if b then none else get j m) apart
]

trim-reserved :
    (xs : List (String × ℕ)) (t : Trim) (k : String)
    → AllUser xs
    → is_reserved_key k ≡ true
    → get k (trim xs t).out ≡ get k t.out
unfolding trim AllUser
trim-reserved [] t k user reserved = refl
trim-reserved ((j, n) ∷ rest) t k user reserved = elim (Bool-cases (leb t.total max_event_size)) [
  | inl fits ↦ rw fits refl
  | inr over ↦ rw over (
      trim-reserved rest _ k (ground (arith, user)) reserved
      ∙ get-delete_user j k t.out (ground (arith, user)) reserved)
]

noted-others :
    (ks : List String) (o : Option Fields) (out : Fields) (k : String)
    → str_eq "wlog" k ≡ false
    → get k (noted ks o out) ≡ get k out
unfolding noted
noted-others ks none out k other = refl
noted-others ks (some m) out k other =
    get-put "wlog" k (object (with_note ks m)) out
    ∙ ap (λ b. if b then some (object (with_note ks m)) else get k out) other

-- A key of the event is as it was, in an event that was not dropped.
AsWas : String → Option Value → Option (Fields × Bool) → Type 0
AsWas k v none = 0 ≤ 0
AsWas k v (some x) = get k x.0 ≡ v

small_when :
    (b : Bool) (ks : List String) (out : Fields) (k : String)
    → str_eq "wlog" k ≡ false
    → AsWas k (get k out) (if b then some (out, false) else some (note ks out, true))
unfolding AsWas note
small_when true ks out k apart = refl
small_when false ks out k apart = noted-others ks (as_object (get "wlog" out)) out k apart

fits_when :
    (b : Bool) (k : String) (v : Option Value) (o : Option (Fields × Bool))
    → AsWas k v o
    → AsWas k v (if b then o else none)
unfolding AsWas
fits_when true k v o h = h
fits_when false k v o h = omega arith

trimmed-AsWas :
    (t : Trim) (k : String) → str_eq "wlog" k ≡ false → AsWas k (get k t.out) (trimmed t)
unfolding trimmed
trimmed-AsWas t k apart =
    fits_when (leb t.total max_event_size) k (get k t.out) _
      (small_when (leb (length t.truncated) 0) t.truncated t.out k apart)

whole_when :
    (b : Bool) (k : String) (out : Fields) (o : Option (Fields × Bool))
    → AsWas k (get k out) o
    → AsWas k (get k out) (if b then some (out, false) else o)
unfolding AsWas
whole_when true k out o h = refl
whole_when false k out o h = h

finalize_size-AsWas :
    (out : Fields) (k : String)
    → is_reserved_key k ≡ true
    → str_eq "wlog" k ≡ false
    → AsWas k (get k out) (finalize_size out)
unfolding finalize_size
finalize_size-AsWas out k reserved apart =
    let begun : Trim = record { total = fields_size out; out = out; truncated = [] } in
    let user = sorted-AllUser (user_sizes out) (user_sizes-AllUser out) in
    whole_when (leb (fields_size out) max_event_size) k out _ (
      subst (λ v. AsWas k v (trimmed (trim (sorted (user_sizes out)) begun)))
        (trim-reserved (sorted (user_sizes out)) begun k user reserved)
        (trimmed-AsWas (trim (sorted (user_sizes out)) begun) k apart))

-- The size cap never takes a reserved group: in an event that finalizeSize lets through, every
-- reserved key but wlog reads as it did before, the audit records among them.
pub finalize_size-reserved :
    (out kept : Fields) (cut : Bool) (k : String)
    → finalize_size out ≡ some (kept, cut)
    → is_reserved_key k ≡ true
    → str_eq "wlog" k ≡ false
    → get k kept ≡ get k out
unfolding AsWas
finalize_size-reserved out kept cut k result reserved apart =
    subst (AsWas k (get k out)) result (finalize_size-AsWas out k reserved apart)
