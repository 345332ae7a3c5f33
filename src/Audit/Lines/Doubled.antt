-- ===== src/Audit/Lines/Doubled.antt =====
-- A line that stands twice on one line: what chainValue of audit/journal.go makes of it.
use wlog.Base.{
  ℕ, zero, suc, ◌+◌, ◌≤◌, ◌<◌, ◌≡◌, refl, sym, ap, ◌∙◌, true, false, Option, none, some, [], ◌∷◌,
  ◌++◌, length, drop, arith, ◌==◌, if◌then◌else◌, Bool-cases, inl, inr,
}
use wlog.Audit.Bytes.{Bytes, has_prefix, index_from, is_found, contains}
use wlog.Audit.Lines.{
  Crypto, Marker, Checked, fail, pass, duplicate, check_line, chain_value, value_after, value_at,
  with_hash, hash_field, marker_of, no_bytes,
}
use wlog.Audit.Lines.Facts.{Field, chain_value-Field}

-- Where a search starts to count does not change whether it finds.
is_found-shift :
    (n p : ℕ) (m line : Bytes) → is_found (index_from n m line) ≡ is_found (index_from p m line)
unfolding index_from is_found
is_found-shift n p m [] =
    elim (has_prefix m [])
      as (λ b. is_found (if b then some n else none) ≡ is_found (if b then some p else none)) [
        | true ↦ refl
        | false ↦ refl
      ]
is_found-shift n p m (c ∷ line) =
    elim (has_prefix m (c ∷ line))
      as (λ b.
        is_found (if b then some n else index_from (suc n) m line)
        ≡ is_found (if b then some p else index_from (suc p) m line)) [
          | true ↦ refl
          | false ↦ is_found-shift (suc n) (suc p) m line
        ]

-- What follows a text is found behind it, and behind a part of it.
is_found-append :
    (n : ℕ) (m a b : Bytes)
    → is_found (index_from n m b) ≡ true
    → is_found (index_from n m (a ++ b)) ≡ true
unfolding index_from is_found
is_found-append n m [] b h = h
is_found-append n m (c ∷ a) b h =
    elim (has_prefix m (c ∷ (a ++ b)))
      as (λ x. is_found (if x then some n else index_from (suc n) m (a ++ b)) ≡ true) [
        | true ↦ refl
        | false ↦ is_found-append (suc n) m a b (is_found-shift (suc n) n m b ∙ h)
      ]

contains-drop :
    (k : ℕ) (m a b : Bytes)
    → k ≤ length a
    → contains b m ≡ true
    → contains (drop k (a ++ b)) m ≡ true
unfolding contains
contains-drop zero m a b fits h = is_found-append 0 m a b h
contains-drop (suc k) m [] b fits h = absurd (omega (arith, fits))
contains-drop (suc k) m (c ∷ a) b fits h = contains-drop k m a b (omega (arith, fits)) h

has_prefix-append : (m a b : Bytes) → has_prefix m a ≡ true → has_prefix m (a ++ b) ≡ true
unfolding has_prefix
has_prefix-append [] a b h = refl
has_prefix-append (x ∷ m) [] b h = cc h
has_prefix-append (x ∷ m) (c ∷ a) b h =
    let later = has_prefix-append m a b (ground (arith, h)) in
    let first : (x == c) ≡ true = ground (arith, h) in rw (first, later) refl

-- A marker that a text holds is found within it too when more follows.
abbrev FoundWithin : ℕ → Bytes → Bytes → Bytes → Type 0
FoundWithin n m a b = (k : ℕ) × (index_from n m (a ++ b) ≡ some k) × (k < n + length a)

index_from-append :
    (n : ℕ) (x : ℕ) (m a b : Bytes) (k : ℕ)
    → index_from n (x ∷ m) a ≡ some k
    → FoundWithin n (x ∷ m) a b
unfolding index_from has_prefix
index_from-append n x m [] b k h = cc h
index_from-append n x m (c ∷ a) b k h = elim (Bool-cases (has_prefix (x ∷ m) (c ∷ (a ++ b)))) [
  | inl here ↦
      (n, ap (λ t. if t then some n else index_from (suc n) (x ∷ m) (a ++ b)) here, omega arith)
  | inr not_here ↦ elim (Bool-cases (has_prefix (x ∷ m) (c ∷ a))) [
    | inl starts ↦ cc (has_prefix-append (x ∷ m) (c ∷ a) b starts, not_here)
    | inr later ↦
        let (j, found, within) =
          index_from-append (suc n) x m a b k
            (sym (ap (λ t. if t then some n else index_from (suc n) (x ∷ m) a) later) ∙ h) in
        (
          j,
          ap (λ t. if t then some n else index_from (suc n) (x ∷ m) (a ++ b)) not_here ∙ found,
          omega (arith, within),
        )
  ]
]

chain_value-doubled :
    (line value : Bytes) (off : ℕ)
    → Field line hash_field value off
    → chain_value (line ++ line) hash_field ≡ fail (duplicate hash_field)
unfolding chain_value value_after contains is_found
chain_value-doubled line value off f =
    let (k, found, within) = index_from-append 0 34 _ line line f.first f.found in
    let again : contains (drop (suc k) (line ++ line)) (marker_of hash_field) ≡ true =
      contains-drop (suc k) (marker_of hash_field) line line (omega (arith, within))
        (ap is_found f.found) in
    ap (value_after (line ++ line) hash_field) found
    ∙ ap
        (λ t.
          if t
          then fail (duplicate hash_field)
          else value_at (line ++ line) hash_field (k + length (marker_of hash_field)))
        again

-- What passes has a hash.
with_hash-pass :
    (c : Crypto) (line prev : Bytes) (key : Option Bytes) (v : Checked (Bytes × ℕ))
    (r : Bytes × Option Marker)
    → with_hash c line prev key v ≡ pass r
    → (value : Bytes) × (off : ℕ) × (v ≡ pass (value, off))
unfolding with_hash
with_hash-pass c line prev key (fail e) r h = cc h
with_hash-pass c line prev key (pass (value, off)) r h = (value, off, refl)

-- A line that passes the check does not when it stands twice on one line: it has two hashes.
pub check_line-doubled :
    (c : Crypto) (line prev before : Bytes) (key : Option Bytes) (r : Bytes × Option Marker)
    → check_line c line prev key ≡ pass r
    → check_line c (line ++ line) before key ≡ fail (duplicate hash_field)
unfolding check_line no_bytes with_hash
check_line-doubled c [] prev before key r h = cc h
check_line-doubled c (b ∷ line) prev before key r h =
    let (value, off, hash) =
      with_hash-pass c (b ∷ line) prev key (chain_value (b ∷ line) hash_field) r h in
    ap (with_hash c ((b ∷ line) ++ (b ∷ line)) before key) (
      chain_value-doubled (b ∷ line) value off
        (chain_value-Field (b ∷ line) hash_field value off hash))
