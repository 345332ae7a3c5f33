-- ===== src/Audit/Bytes/Writes.antt =====
-- A write into a line: its parts, and what it leaves.
use wlog.Base.{
  ◌-◌, map, get_elem?, ℕ, zero, suc, ◌+◌, ◌≤◌, ◌≡◌, refl, ap, ap₂, sym, ◌∙◌, Bool, true, not,
  Option, none, some, List, [], ◌∷◌, ◌++◌, ◌==◌, length, take, drop, all, arith, length-take,
  length-drop, take-append-drop,
}
use wlog.Audit.Bytes.{Bytes, overlay, at, write_at, or_byte}

-- A byte that is no quotation mark.
abbrev pub plain : ℕ → Bool
plain c = not (c == 34)

-- A write within a line, in parts.
pub overlay-parts :
    (off : ℕ) (new line : Bytes)
    → off + length new ≤ length line
    → write_at off new line ≡ take off line ++ (new ++ drop (length new) (drop off line))
unfolding write_at overlay
overlay-parts zero [] line fits = refl
overlay-parts zero (b ∷ new) [] fits = ground (arith, fits)
overlay-parts zero (b ∷ new) (c ∷ line) fits =
    ap (◌∷◌ b) (overlay-parts zero new line (omega (arith, fits)))
overlay-parts (suc off) new [] fits = ground (arith, fits)
overlay-parts (suc off) new (c ∷ line) fits =
    ap (◌∷◌ c) (overlay-parts off new line (omega (arith, fits)))

abbrev pub slice : ℕ → ℕ → Bytes → Bytes
slice off n line = take n (drop off line)

pub parts_of :
    (off n : ℕ) (line : Bytes)
    → line ≡ take off line ++ (slice off n line ++ drop n (drop off line))
parts_of off n line =
    sym (take-append-drop off line)
    ∙ ap (λ l. take off line ++ l) (sym (take-append-drop n (drop off line)))

pub length-slice :
    (off n : ℕ) (line : Bytes) → off + n ≤ length line → length (slice off n line) ≡ n
length-slice off n line fits =
    let e = length-take n (drop off line) in
    let d = length-drop off line in omega (arith, e, d, fits)

take-overlay :
    (n : ℕ) (os : List (Option ℕ)) (line : Bytes)
    → take n (overlay os line) ≡ overlay os (take n line)
unfolding overlay
take-overlay zero [] line = refl
take-overlay zero (o ∷ os) line = refl
take-overlay (suc n) [] line = refl
take-overlay (suc n) (o ∷ os) [] = refl
take-overlay (suc n) (o ∷ os) (c ∷ line) = ap (◌∷◌ (or_byte c o)) (take-overlay n os line)

overlay-nil : (os : List (Option ℕ)) → overlay os [] ≡ []
unfolding overlay
overlay-nil [] = refl
overlay-nil (o ∷ os) = refl

length-overlay : (os : List (Option ℕ)) (line : Bytes) → length (overlay os line) ≡ length line
unfolding overlay
length-overlay [] line = refl
length-overlay (o ∷ os) [] = refl
length-overlay (o ∷ os) (c ∷ line) = ap suc (length-overlay os line)

drop-overlay :
    (n : ℕ) (os : List (Option ℕ)) (line : Bytes)
    → drop n (overlay os line) ≡ overlay (drop n os) (drop n line)
unfolding overlay
drop-overlay zero os line = refl
drop-overlay (suc n) [] line = refl
drop-overlay (suc n) (o ∷ os) [] = sym (overlay-nil (drop n os))
drop-overlay (suc n) (o ∷ os) (c ∷ line) = drop-overlay n os line

pub slice-write_at :
    (at_slice n off : ℕ) (new line : Bytes)
    → slice at_slice n (write_at off new line)
      ≡ overlay (drop at_slice (at off new)) (slice at_slice n line)
unfolding write_at
slice-write_at at_slice n off new line =
    ap (take n) (drop-overlay at_slice (at off new) line)
    ∙ take-overlay n (drop at_slice (at off new)) (drop at_slice line)

pub length-write_at : (off : ℕ) (new line : Bytes) → length (write_at off new line) ≡ length line
unfolding write_at
length-write_at off new line = length-overlay (at off new) line

-- A write of plain bytes leaves plain bytes plain.
abbrev plain_mask : Option ℕ → Bool
plain_mask none = true
plain_mask (some b) = plain b

all-overlay :
    (os : List (Option ℕ)) (line : Bytes)
    → all plain_mask os ≡ true
    → all plain line ≡ true
    → all plain (overlay os line) ≡ true
unfolding overlay
all-overlay [] line h p = p
all-overlay (o ∷ os) [] h p = refl
all-overlay (none ∷ os) (c ∷ line) h p =
    rw (all-overlay os line (ground (arith, h)) (ground (arith, p))) (ground (arith, p))
all-overlay (some b ∷ os) (c ∷ line) h p =
    rw (all-overlay os line (ground (arith, h)) (ground (arith, p))) (ground (arith, h))

all_mask-at : (off : ℕ) (new : Bytes) → all plain new ≡ true → all plain_mask (at off new) ≡ true
all_mask-at zero [] p = refl
all_mask-at zero (b ∷ new) p = rw (all_mask-at zero new (ground (arith, p))) (ground (arith, p))
all_mask-at (suc off) new p = all_mask-at off new p

all_mask-drop :
    (n : ℕ) (os : List (Option ℕ)) → all plain_mask os ≡ true → all plain_mask (drop n os) ≡ true
all_mask-drop zero os h = h
all_mask-drop (suc n) [] h = refl
all_mask-drop (suc n) (o ∷ os) h = all_mask-drop n os (ground (arith, h))

pub plain-write_at :
    (at_slice n off : ℕ) (new line : Bytes)
    → all plain new ≡ true
    → all plain (slice at_slice n line) ≡ true
    → all plain (slice at_slice n (write_at off new line)) ≡ true
plain-write_at at_slice n off new line pn pl = rw (slice-write_at at_slice n off new line) (
    all-overlay (drop at_slice (at off new)) (slice at_slice n line)
      (all_mask-drop at_slice (at off new) (all_mask-at off new pn)) pl)

head_of : Bytes → ℕ
head_of [] = 0
head_of (c ∷ line) = c

-- A write forgets nothing but the bytes that it covers.
pub write_at-same :
    (off : ℕ) (new a b : Bytes)
    → slice off (length new) a ≡ slice off (length new) b
    → write_at off new a ≡ write_at off new b
    → a ≡ b
unfolding write_at overlay head_of
write_at-same zero [] a b s w = w
write_at-same zero (x ∷ new) [] [] s w = refl
write_at-same zero (x ∷ new) [] (d ∷ b) s w = cc w
write_at-same zero (x ∷ new) (c ∷ a) [] s w = cc w
write_at-same zero (x ∷ new) (c ∷ a) (d ∷ b) s w =
    ap₂ (◌∷◌) (ap head_of s) (write_at-same zero new a b (ap (drop 1) s) (ap (drop 1) w))
write_at-same (suc off) new [] [] s w = refl
write_at-same (suc off) new [] (d ∷ b) s w = cc w
write_at-same (suc off) new (c ∷ a) [] s w = cc w
write_at-same (suc off) new (c ∷ a) (d ∷ b) s w =
    ap₂ (◌∷◌) (ap head_of w) (write_at-same off new a b s (ap (drop 1) w))

-- A marker is found in what is left of a line as before the write, where the write is in what is left.
drop-at : (k off : ℕ) (new : Bytes) → k ≤ off → drop k (at off new) ≡ at (off - k) new
drop-at zero off new le = let e : off ≡ off - zero = omega arith in ap (λ n. at n new) e
drop-at (suc k) zero new le = ground (arith, le)
drop-at (suc k) (suc off) new le =
    let e : suc off - suc k ≡ off - k = omega arith in rw e (drop-at k off new (omega (arith, le)))

pub drop-write_at :
    (k off : ℕ) (new line : Bytes)
    → k ≤ off
    → drop k (write_at off new line) ≡ write_at (off - k) new (drop k line)
unfolding write_at
drop-write_at k off new line le =
    drop-overlay k (at off new) line ∙ ap (λ os. overlay os (drop k line)) (drop-at k off new le)

-- What was written is read back, and what follows it stays.
overlay-all : (new line : Bytes) → length line ≡ length new → overlay (map some new) line ≡ new
unfolding overlay
overlay-all [] [] e = refl
overlay-all [] (c ∷ line) e = ground (arith, e)
overlay-all (b ∷ new) [] e = ground (arith, e)
overlay-all (b ∷ new) (c ∷ line) e = ap (◌∷◌ b) (overlay-all new line (omega (arith, e)))

drop-at_self : (off : ℕ) (new : Bytes) → drop off (at off new) ≡ map some new
drop-at_self zero new = refl
drop-at_self (suc off) new = drop-at_self off new

pub slice-write_at_self :
    (off : ℕ) (new line : Bytes)
    → off + length new ≤ length line
    → slice off (length new) (write_at off new line) ≡ new
slice-write_at_self off new line fits =
    slice-write_at off (length new) off new line
    ∙ ap (λ os. overlay os (slice off (length new) line)) (drop-at_self off new)
    ∙ overlay-all new (slice off (length new) line) (length-slice off (length new) line fits)

pub get_elem?-write_at :
    (off : ℕ) (new line : Bytes) (i : ℕ)
    → off + length new ≤ i
    → get_elem? (write_at off new line) i ≡ get_elem? line i
unfolding write_at overlay
get_elem?-write_at zero [] line i past = refl
get_elem?-write_at zero (b ∷ new) [] i past = refl
get_elem?-write_at zero (b ∷ new) (c ∷ line) zero past = ground (arith, past)
get_elem?-write_at zero (b ∷ new) (c ∷ line) (suc i) past =
    get_elem?-write_at zero new line i (omega (arith, past))
get_elem?-write_at (suc off) new [] i past = refl
get_elem?-write_at (suc off) new (c ∷ line) zero past = ground (arith, past)
get_elem?-write_at (suc off) new (c ∷ line) (suc i) past =
    get_elem?-write_at off new line i (omega (arith, past))

-- The last of two writes of the same size at one place stays.
pub write_at-write_at :
    (off : ℕ) (new old line : Bytes)
    → length new ≡ length old
    → write_at off new (write_at off old line) ≡ write_at off new line
unfolding write_at overlay
write_at-write_at zero [] [] line e = refl
write_at-write_at zero [] (b ∷ old) line e = ground (arith, e)
write_at-write_at zero (b ∷ new) [] line e = ground (arith, e)
write_at-write_at zero (b ∷ new) (d ∷ old) [] e = refl
write_at-write_at zero (b ∷ new) (d ∷ old) (c ∷ line) e =
    ap (◌∷◌ b) (write_at-write_at zero new old line (omega (arith, e)))
write_at-write_at (suc off) new old [] e = refl
write_at-write_at (suc off) new old (c ∷ line) e = ap (◌∷◌ c) (write_at-write_at off new old line e)
