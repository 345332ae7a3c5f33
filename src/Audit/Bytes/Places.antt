-- ===== src/Audit/Bytes/Places.antt =====
-- Where a marker stands in a line does not change with the value of a field.
use wlog.Base.{
  ◌-◌, drop-drop, ℕ, suc, ◌+◌, ◌≤◌, ◌<◌, ◌≡◌, refl, ap, ap₂, sym, ◌∙◌, true, false, ◌&&◌, some, [],
  ◌∷◌, ◌++◌, if◌then◌else◌, ◌==◌, length, take, drop, all, arith, length-drop,
}
use wlog.Audit.Bytes.{contains, is_found, Bytes, has_prefix, index_from, write_at}
use wlog.Audit.Bytes.Writes.{plain, slice, overlay-parts, parts_of, length-slice, drop-write_at}

-- A marker that ends in a quotation mark does not fit into plain bytes.
prefix_plain :
    (m v B : Bytes)
    → length m < length v
    → all plain v ≡ true
    → has_prefix (m ++ 34 ∷ []) (v ++ B) ≡ false
unfolding has_prefix
prefix_plain m [] B fits p = ground (arith, fits)
prefix_plain [] (c ∷ v) B fits p = ground (arith, p)
prefix_plain (b ∷ m) (c ∷ v) B fits p =
    let later = prefix_plain m v B (omega (arith, fits)) (ground (arith, p)) in
    rw later (ground arith)

prefix_stable :
    (m A v w B : Bytes)
    → length m < length v
    → length m < length w
    → all plain v ≡ true
    → all plain w ≡ true
    → has_prefix (m ++ 34 ∷ []) (A ++ (v ++ B)) ≡ has_prefix (m ++ 34 ∷ []) (A ++ (w ++ B))
unfolding has_prefix
prefix_stable m [] v w B fv fw pv pw = prefix_plain m v B fv pv ∙ sym (prefix_plain m w B fw pw)
prefix_stable [] (x ∷ A) v w B fv fw pv pw = refl
prefix_stable (b ∷ m) (x ∷ A) v w B fv fw pv pw =
    ap (λ t. (b == x) && t) (prefix_stable m A v w B (omega (arith, fv)) (omega (arith, fw)) pv pw)

-- A marker that starts with a quotation mark is not found in plain bytes.
index_plain :
    (n : ℕ) (m v B : Bytes)
    → all plain v ≡ true
    → index_from n (34 ∷ m) (v ++ B) ≡ index_from (length v + n) (34 ∷ m) B
unfolding index_from has_prefix
index_plain n m [] B p = let e : n ≡ 0 + n = omega arith in ap (λ k. index_from k (34 ∷ m) B) e
index_plain n m (c ∷ v) B p =
    let missing : (34 == c) ≡ false = ground (arith, p) in
    let move : length v + suc n ≡ suc (length v) + n = omega arith in
    rw missing
      (index_plain (suc n) m v B (ground (arith, p)) ∙ ap (λ k. index_from k (34 ∷ m) B) move)

index_stable :
    (n : ℕ) (m A v w B : Bytes)
    → suc (length m) < length v
    → length w ≡ length v
    → all plain v ≡ true
    → all plain w ≡ true
    → index_from n (34 ∷ m ++ 34 ∷ []) (A ++ (v ++ B))
      ≡ index_from n (34 ∷ m ++ 34 ∷ []) (A ++ (w ++ B))
unfolding index_from
index_stable n m [] v w B fits e pv pw =
    index_plain n (m ++ 34 ∷ []) v B pv
    ∙ ap (λ k. index_from (k + n) (34 ∷ m ++ 34 ∷ []) B) (sym e)
    ∙ sym (index_plain n (m ++ 34 ∷ []) w B pw)
index_stable n m (x ∷ A) v w B fits e pv pw =
    let fw : suc (length m) < length w = omega (arith, fits, e) in
    ap₂ (λ b o. if b then some n else o) (prefix_stable (34 ∷ m) (x ∷ A) v w B fits fw pv pw)
      (index_stable (suc n) m A v w B fits e pv pw)

-- The place of a marker stays when plain bytes are written over plain bytes.
pub index_from-write_at :
    (n : ℕ) (m : Bytes) (off : ℕ) (new line : Bytes)
    → suc (length m) < length new
    → off + length new ≤ length line
    → all plain (slice off (length new) line) ≡ true
    → all plain new ≡ true
    → index_from n (34 ∷ m ++ 34 ∷ []) (write_at off new line)
      ≡ index_from n (34 ∷ m ++ 34 ∷ []) line
index_from-write_at n m off new line short fits old_plain new_plain =
    ap (index_from n (34 ∷ m ++ 34 ∷ [])) (overlay-parts off new line fits)
    ∙ index_stable n m (take off line) new (slice off (length new) line)
        (drop (length new) (drop off line)) short (length-slice off (length new) line fits)
        new_plain old_plain
    ∙ ap (index_from n (34 ∷ m ++ 34 ∷ [])) (sym (parts_of off (length new) line))

pub contains-write_at :
    (m : Bytes) (k off : ℕ) (new line : Bytes)
    → suc (length m) < length new
    → k ≤ off
    → off + length new ≤ length line
    → all plain (slice off (length new) line) ≡ true
    → all plain new ≡ true
    → contains (drop k (write_at off new line)) (34 ∷ m ++ 34 ∷ [])
      ≡ contains (drop k line) (34 ∷ m ++ 34 ∷ [])
unfolding contains
contains-write_at m k off new line short le fits old_plain new_plain =
    let same_place : k + (off - k) ≡ off = omega (arith, le) in
    let dropped : drop (off - k) (drop k line) ≡ drop off line =
      drop-drop (off - k) k line ∙ ap (λ n. drop n line) same_place in
    let old : slice (off - k) (length new) (drop k line) ≡ slice off (length new) line =
      ap (take (length new)) dropped in
    let size = length-drop k line in
    ap (λ l. is_found (index_from 0 (34 ∷ m ++ 34 ∷ []) l)) (drop-write_at k off new line le)
    ∙ ap is_found (
        index_from-write_at 0 m (off - k) new (drop k line) short (omega (arith, size, le, fits))
          (ap (all plain) old ∙ old_plain) new_plain)
