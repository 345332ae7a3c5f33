-- ===== src/Audit/Lines/Facts.antt =====
-- What a check that passes says of a line.
use wlog.Base.{
  ℕ, suc, ◌+◌, ◌<◌, ◌≡◌, refl, ap, ap₂, sym, subst, ◌∙◌, true, false, not, ◌||◌, Option, none, some,
  [], ◌∷◌, leb, length, take, drop, get_elem?, all, Bool-cases, inl, inr, arith, ==_iff,
}
use wlog.Audit.Bytes.{Bytes, same_bytes, index_from, contains}
use wlog.Audit.Bytes.Writes.{slice, plain}
use wlog.Audit.Lines.{
  Marker, Parsed, Crypto, Checked, fail, pass, hash_field, signature_field, marker_of, is_hex_byte,
  is_quote, value_at, value_after, chain_value, covered_bytes, or_empty, check_signature,
  check_parsed, check_hash, with_signature, with_hash, no_bytes, check_line,
}

pub same_bytes_sound : (x y : Bytes) → same_bytes x y ≡ true → x ≡ y
unfolding same_bytes
same_bytes_sound [] [] h = refl
same_bytes_sound [] (c ∷ y) h = cc h
same_bytes_sound (b ∷ x) [] h = cc h
same_bytes_sound (b ∷ x) (c ∷ y) h =
    ap₂ (◌∷◌) ((==_iff b c).0 (ground (arith, h))) (same_bytes_sound x y (ground (arith, h)))

pub same_bytes_complete : (x : Bytes) → same_bytes x x ≡ true
unfolding same_bytes
same_bytes_complete [] = refl
same_bytes_complete (b ∷ x) = rw ((==_iff b b).1 refl, same_bytes_complete x) refl

-- A field of a line: the first marker, and 64 hex digits after it.
pub record Field (line field value : Bytes) (off : ℕ) : Type 0 where
  pub first : ℕ
  pub found : index_from 0 (marker_of field) line ≡ some first
  pub after : off ≡ first + length (marker_of field)
  pub fits : off + 64 < length line
  pub is_value : slice off 64 line ≡ value
  pub is_hex : all is_hex_byte value ≡ true
  pub once : contains (drop (suc first) line) (marker_of field) ≡ false
  pub ends : is_quote (get_elem? line (off + 64)) ≡ true

pub all_hex-plain : (v : Bytes) → all is_hex_byte v ≡ true → all plain v ≡ true
all_hex-plain [] h = refl
all_hex-plain (x ∷ v) h =
    let this : plain x ≡ true = ground (arith, h) in
    rw (this, all_hex-plain v (ground (arith, h))) refl

pub Field-plain :
    {line field value : Bytes} {off : ℕ}
    → Field line field value off
    → all plain (slice off 64 line) ≡ true
Field-plain {value = value} f = rw f.is_value (all_hex-plain value f.is_hex)

-- The parts of what passes.
value_of : Checked (Bytes × ℕ) → Bytes
value_of (fail e) = []
value_of (pass (value, off)) = value

place_of : Checked (Bytes × ℕ) → ℕ
place_of (fail e) = 0
place_of (pass (value, off)) = off

-- What stands at the start of a value that passes.
record Standing (line value : Bytes) (off : ℕ) : Type 0 where
  fits : off + 64 < length line
  is_value : slice off 64 line ≡ value
  is_hex : all is_hex_byte value ≡ true
  ends : is_quote (get_elem? line (off + 64)) ≡ true

value_at-Standing :
    (line field value : Bytes) (start off : ℕ)
    → value_at line field start ≡ pass (value, off)
    → (off ≡ start) × Standing line value start
unfolding value_at value_of place_of
value_at-Standing line field value start off h =
    elim (Bool-cases
      (leb (length line) (start + 64) || not (is_quote (get_elem? line (start + 64))))) [
        | inl short ↦ cc (rw short at h)
        | inr long ↦
            let fits : start + 64 < length line = ground (arith, long) in
            let ends : is_quote (get_elem? line (start + 64)) ≡ true = ground (arith, long) in
            elim (Bool-cases (all is_hex_byte (take 64 (drop start line)))) [
              | inl hex ↦
                  let e : Checked.pass (take 64 (drop start line), start) ≡ pass (value, off) =
                    rw (long, hex) at h in
                  let same : take 64 (drop start line) ≡ value = ap value_of e in
                  (
                    sym (ap place_of e),
                    record {
                      fits = fits;
                      is_value = same;
                      is_hex = subst (λ v. all is_hex_byte v ≡ true) same hex;
                      ends = ends;
                    },
                  )
              | inr bad ↦ cc (rw (long, bad) at h)
            ]
      ]

value_after-Field :
    (line field value : Bytes) (off : ℕ) (o : Option ℕ)
    → index_from 0 (marker_of field) line ≡ o
    → value_after line field o ≡ pass (value, off)
    → Field line field value off
unfolding value_after
value_after-Field line field value off none e h = cc h
value_after-Field line field value off (some first) e h =
    elim (Bool-cases (contains (drop (suc first) line) (marker_of field))) [
      | inl twice ↦ cc (rw twice at h)
      | inr once ↦
          let at =
            value_at-Standing line field value (first + length (marker_of field)) off
              (rw once at h) in
          record {
            first = first;
            found = e;
            after = at.0;
            fits = subst (λ n. n + 64 < length line) (sym at.0) at.1.fits;
            is_value = subst (λ n. slice n 64 line ≡ value) (sym at.0) at.1.is_value;
            is_hex = at.1.is_hex;
            once = once;
            ends = subst (λ n. is_quote (get_elem? line (n + 64)) ≡ true) (sym at.0) at.1.ends;
          }
    ]

pub chain_value-Field :
    (line field value : Bytes) (off : ℕ)
    → chain_value line field ≡ pass (value, off)
    → Field line field value off
unfolding chain_value
chain_value-Field line field value off h =
    value_after-Field line field value off (index_from 0 (marker_of field) line) refl h

-- The converse: a field is what chainValue gives.
pub Field-chain_value :
    {line field value : Bytes} {off : ℕ}
    → Field line field value off
    → chain_value line field ≡ pass (value, off)
unfolding chain_value value_after value_at
Field-chain_value {line} {field} {value} {off} f =
    let fits = f.fits in
    let long : leb (length line) (off + 64) ≡ false = ground (arith, fits) in
    let hex : all is_hex_byte (take 64 (drop off line)) ≡ true =
      subst (λ v. all is_hex_byte v ≡ true) (sym f.is_value) f.is_hex in
    rw (f.found, f.once)
      (subst (λ n. value_at line field n ≡ pass (value, off)) f.after
        (rw (long, f.ends, hex) (ap (λ v. Checked.pass (v, off)) f.is_value)))

-- The hash of the line before, as a line states it.
pub stated_prev : Option Parsed → Bytes
stated_prev none = []
stated_prev (some p) = or_empty p.prev_hash

-- A signed line that follows a hash and has one.
pub record Linked (c : Crypto) (key line prev hash : Bytes) : Type 0 where
  pub signature : Bytes
  pub hash_place : ℕ
  pub signature_place : ℕ
  pub hash_at : Field line hash_field hash hash_place
  pub signature_at : Field line signature_field signature signature_place
  pub covers : c.digest (covered_bytes line (hash_place ∷ signature_place ∷ [])) ≡ hash
  pub follows : stated_prev (c.parse line) ≡ prev
  pub signed : c.signature key hash ≡ signature

module _ (c : Crypto) (key line prev hash : Bytes) (m : Option Marker) where
  hash_of : Checked (Bytes × Option Marker) → Bytes
  hash_of (fail e) = []
  hash_of (pass (w, k)) = w

  -- What the checks after the hash say.
  check_signature-signed :
      (sig w : Bytes) (k : Option Marker)
      → check_signature c (some key) w (some sig) k ≡ pass (hash, m)
      → (w ≡ hash) × (c.signature key w ≡ sig)
  unfolding check_signature hash_of
  check_signature-signed sig w k h = elim (Bool-cases (same_bytes (c.signature key w) sig)) [
    | inl good ↦ (ap hash_of (rw good at h), same_bytes_sound (c.signature key w) sig good)
    | inr bad ↦ cc (rw bad at h)
  ]

  check_parsed-follows :
      (sig w : Bytes) (p : Option Parsed)
      → check_parsed c prev (some key) w (some sig) p ≡ pass (hash, m)
      → (stated_prev p ≡ prev) × (w ≡ hash) × (c.signature key w ≡ sig)
  unfolding check_parsed stated_prev
  check_parsed-follows sig w none h = cc h
  check_parsed-follows sig w (some p) h =
      elim (Bool-cases (same_bytes (or_empty p.prev_hash) prev)) [
        | inl good ↦
            let rest = check_signature-signed sig w p.marker (rw good at h) in
            (same_bytes_sound (or_empty p.prev_hash) prev good, rest.0, rest.1)
        | inr bad ↦ cc (rw bad at h)
      ]

  check_parsed-unsigned :
      {P : Type 0} (w : Bytes) (p : Option Parsed)
      → check_parsed c prev (some key) w none p ≡ pass (hash, m)
      → P
  unfolding check_parsed check_signature
  check_parsed-unsigned w none h = cc h
  check_parsed-unsigned w (some p) h = elim (Bool-cases (same_bytes (or_empty p.prev_hash) prev)) [
    | inl good ↦ cc (rw good at h)
    | inr bad ↦ cc (rw bad at h)
  ]

  with_signature-Linked :
      (stored : Bytes) (h : ℕ) (v : Checked (Bytes × ℕ))
      → Field line hash_field stored h
      → chain_value line signature_field ≡ v
      → with_signature c line prev (some key) (stored, h) v ≡ pass (hash, m)
      → Linked c key line prev hash
  unfolding with_signature check_hash
  with_signature-Linked stored h (fail e) at_hash e_sig passes =
      elim (Bool-cases (same_bytes stored (c.digest (covered_bytes line (h ∷ []))))) [
        | inl good ↦
            check_parsed-unsigned (c.digest (covered_bytes line (h ∷ []))) (c.parse line)
              (rw good at passes)
        | inr bad ↦ cc (rw bad at passes)
      ]
  with_signature-Linked stored h (pass (sig, s)) at_hash e_sig passes =
      elim (Bool-cases (same_bytes stored (c.digest (covered_bytes line (h ∷ s ∷ []))))) [
        | inl good ↦
            let d : Bytes = c.digest (covered_bytes line (h ∷ s ∷ [])) in
            let rest = check_parsed-follows sig d (c.parse line) (rw good at passes) in
            let stored_hash : stored ≡ hash = same_bytes_sound stored d good ∙ rest.1 in
            record {
              signature = sig;
              hash_place = h;
              signature_place = s;
              hash_at = subst (λ v. Field line hash_field v h) stored_hash at_hash;
              signature_at = chain_value-Field line signature_field sig s e_sig;
              covers = rest.1;
              follows = rest.0;
              signed = subst (λ v. c.signature key v ≡ sig) rest.1 rest.2;
            }
        | inr bad ↦ cc (rw bad at passes)
      ]

  with_hash-Linked :
      (v : Checked (Bytes × ℕ))
      → chain_value line hash_field ≡ v
      → with_hash c line prev (some key) v ≡ pass (hash, m)
      → Linked c key line prev hash
  unfolding with_hash
  with_hash-Linked (fail e) at_hash h = cc h
  with_hash-Linked (pass (stored, off)) at_hash h =
      with_signature-Linked stored off (chain_value line signature_field)
        (chain_value-Field line hash_field stored off at_hash) refl h

  -- A line that passes the check with a key is linked to the one before.
  pub check_line-Linked :
      check_line c line prev (some key) ≡ pass (hash, m) → Linked c key line prev hash
  unfolding check_line
  check_line-Linked h = elim (Bool-cases (no_bytes line)) [
    | inl empty ↦ cc (rw empty at h)
    | inr full ↦ with_hash-Linked (chain_value line hash_field) refl (rw full at h)
  ]
