-- ===== src/Audit/Lines/Fixed.antt =====
-- What the hash of a signed line fixes: the line.
use wlog.Base.{
  ℕ, suc, ◌+◌, ◌<◌, ◌≡◌, ◌≢◌, ◌⊎◌, refl, ap, ap₂, sym, ◌∙◌, Option, none, some, List, [], ◌∷◌, ◌++◌,
  length, drop, Bool-cases, inl, inr, arith,
}
use wlog.Audit.Bytes.{Bytes, bytes, same_bytes, index_from, write_at, overlay, at}
use wlog.Audit.Bytes.Writes.{slice, plain-write_at, slice-write_at, length-write_at, write_at-same}
use wlog.Audit.Bytes.Places.{index_from-write_at}
use wlog.Audit.Lines.{Crypto, hash_field, signature_field, marker_of, zeros, covered_bytes}
use wlog.Audit.Lines.Facts.{Field-plain, Field, Linked, same_bytes_complete, same_bytes_sound}

-- Two lines of which different bytes are covered, with the same SHA-256.
pub record Clash (c : Crypto) (a b : Bytes) : Type 0 where
  pub one : List ℕ
  pub other : List ℕ
  pub differ : covered_bytes a one ≢ covered_bytes b other
  pub same_digest : c.digest (covered_bytes a one) ≡ c.digest (covered_bytes b other)

module _ (line : Bytes) where
  -- The marker of a field stays where it is under the zeros.
  covered-index :
      (m : Bytes) (h s : ℕ) {hash sig : Bytes}
      → suc (length m) < 64
      → Field line hash_field hash h
      → Field line signature_field sig s
      → index_from 0 (34 ∷ m ++ 34 ∷ []) (covered_bytes line (h ∷ s ∷ []))
        ≡ index_from 0 (34 ∷ m ++ 34 ∷ []) line
  unfolding covered_bytes
  covered-index m h s short f g =
      let same_length = length-write_at h zeros line in
      let f_fits = f.fits in
      let g_fits = g.fits in
      index_from-write_at 0 m s zeros (write_at h zeros line) short
        (omega (arith, g_fits, same_length)) (plain-write_at s 64 h zeros line refl (Field-plain g))
        refl
      ∙ index_from-write_at 0 m h zeros line short (omega (arith, f_fits)) (Field-plain f) refl

-- What the covered bytes and the two values fix.
covered_bytes-same :
    (h s : ℕ) (a b : Bytes)
    → slice h 64 a ≡ slice h 64 b
    → slice s 64 a ≡ slice s 64 b
    → covered_bytes a (h ∷ s ∷ []) ≡ covered_bytes b (h ∷ s ∷ [])
    → a ≡ b
unfolding covered_bytes
covered_bytes-same h s a b same_hash same_sig same = write_at-same h zeros a b same_hash (
    write_at-same s zeros (write_at h zeros a) (write_at h zeros b)
      (slice-write_at s 64 h zeros a
        ∙ ap (overlay (drop s (at h zeros))) same_sig
        ∙ sym (slice-write_at s 64 h zeros b))
      same)

or_zero : Option ℕ → ℕ
or_zero none = 0
or_zero (some n) = n

-- Fields of two lines that cover the same bytes stand at the same place.
places :
    (m : Bytes) {a b : Bytes} {va vb : Bytes} {ha sa hb sb : ℕ}
    {hash_a sig_a hash_b sig_b field : Bytes} {pa pb : ℕ}
    → suc (length m) < 64
    → marker_of field ≡ 34 ∷ m ++ 34 ∷ []
    → Field a hash_field hash_a ha
    → Field a signature_field sig_a sa
    → Field b hash_field hash_b hb
    → Field b signature_field sig_b sb
    → Field a field va pa
    → Field b field vb pb
    → covered_bytes a (ha ∷ sa ∷ []) ≡ covered_bytes b (hb ∷ sb ∷ [])
    → pa ≡ pb
unfolding or_zero
places m {a} {b} {ha = ha} {sa} {hb} {sb} short shape fa ga fb gb xa xb same =
    let at_a = sym (covered-index a m ha sa short fa ga) in
    let at_b = covered-index b m hb sb short fb gb in
    let same_index = at_a ∙ ap (index_from 0 (34 ∷ m ++ 34 ∷ [])) same ∙ at_b in
    let found_a = sym xa.found ∙ ap (λ k. index_from 0 k a) shape in
    let found_b = ap (λ k. index_from 0 k b) (sym shape) ∙ xb.found in
    let first : xa.first ≡ xb.first = ap or_zero (found_a ∙ same_index ∙ found_b) in
    xa.after ∙ ap (λ n. n + length (marker_of _)) first ∙ sym xb.after

-- What two lines with the same hash cover.
abbrev covered : {c : Crypto} {key line prev hash : Bytes} → Linked c key line prev hash → Bytes
covered {line = line} l = covered_bytes line (l.hash_place ∷ l.signature_place ∷ [])

covered-line :
    {c : Crypto} {key a b pa pb w : Bytes} (x : Linked c key a pa w) (y : Linked c key b pb w)
    → covered x ≡ covered y
    → a ≡ b
covered-line {a = a} {b} x y same =
    let hash_place : x.hash_place ≡ y.hash_place =
      places (bytes "audit.hash" ++ 34 ∷ 58 ∷ []) (omega arith) refl x.hash_at x.signature_at
        y.hash_at y.signature_at x.hash_at y.hash_at same in
    let signature_place : x.signature_place ≡ y.signature_place =
      places (bytes "audit.signature" ++ 34 ∷ 58 ∷ []) (omega arith) refl x.hash_at x.signature_at
        y.hash_at y.signature_at x.signature_at y.signature_at same in
    let same_signature : x.signature ≡ y.signature = sym x.signed ∙ y.signed in
    covered_bytes-same x.hash_place x.signature_place a b
      (x.hash_at.is_value ∙ sym y.hash_at.is_value ∙ ap (λ n. slice n 64 b) (sym hash_place))
      (x.signature_at.is_value
        ∙ same_signature
        ∙ sym y.signature_at.is_value
        ∙ ap (λ n. slice n 64 b) (sym signature_place))
      (same ∙ ap₂ (λ h s. covered_bytes b (h ∷ s ∷ [])) (sym hash_place) (sym signature_place))

pub same_line :
    {c : Crypto} {key a b pa pb w : Bytes}
    → Linked c key a pa w
    → Linked c key b pb w
    → (a ≡ b) ⊎ Clash c a b
same_line x y = elim (Bool-cases (same_bytes (covered x) (covered y))) [
  | inl same ↦ inl (covered-line x y (same_bytes_sound (covered x) (covered y) same))
  | inr other ↦ inr (record {
    one = x.hash_place ∷ x.signature_place ∷ [];
    other = y.hash_place ∷ y.signature_place ∷ [];
    differ = λ e. cc (other, e, same_bytes_complete (covered x));
    same_digest = x.covers ∙ sym y.covers;
  })
]
