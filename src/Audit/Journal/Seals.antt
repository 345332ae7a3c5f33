-- ===== src/Audit/Journal/Seals.antt =====
-- What the journal seals, the check accepts: for a journal without a key.
use wlog.Base.{ℕ, ◌≡◌, refl, ap, sym, subst, ◌∙◌, true, Option, none, some, [], length, all, arith}
use wlog.Audit.Bytes.{Bytes, index_from, write_at}
use wlog.Audit.Bytes.Writes.{write_at-write_at}
use wlog.Audit.Lines.{
  Parsed, Checked, fail, pass, check_line, chain_value, hash_field, signature_field, marker_of,
  is_hex_byte, zeros, covered_bytes, or_empty,
}
use wlog.Audit.Lines.Facts.{Field, chain_value-Field}
use wlog.Audit.Lines.Writes.{Field-write_at, check_line-unsigned}
use wlog.Audit.Journal.{
  Codec, Body, Entry, Sealed, sealed, refused, seal, seal_line, seal_at, zeros_for,
}

module _ (o : Codec) (prev : Bytes) (body : Body) where
  -- What json.Marshal gets, and what of it is read back whatever the hash is.
  abbrev entry : Entry
  entry = record { body = body; prev_hash = prev; hash = zeros; signature = none }

  abbrev pub Reads : Parsed → Type 0
  Reads p =
      (line value new : Bytes) (h : ℕ)
      → o.marshal entry ≡ some line
      → chain_value line hash_field ≡ pass (value, h)
      → length new ≡ 64
      → all is_hex_byte new ≡ true
      → o.crypto.parse (write_at h new line) ≡ some p

  abbrev pub IsDigest : Type 0
  IsDigest =
      (b : Bytes) → (length (o.crypto.digest b) ≡ 64) × (all is_hex_byte (o.crypto.digest b) ≡ true)

  line_of : Sealed → Bytes
  line_of (refused e) = []
  line_of (sealed line hash) = line

  hash_of : Sealed → Bytes
  hash_of (refused e) = []
  hash_of (sealed line hash) = hash

  seal_at-check_line :
      (p : Parsed) (marshalled line hash : Bytes) (v : Checked (Bytes × ℕ))
      → IsDigest
      → Reads p
      → or_empty p.prev_hash ≡ prev
      → o.marshal entry ≡ some marshalled
      → chain_value marshalled hash_field ≡ v
      → seal_at o.crypto none marshalled v ≡ sealed line hash
      → index_from 0 (marker_of signature_field) line ≡ none
      → check_line o.crypto line prev none ≡ pass (hash, p.marker)
  unfolding seal_at line_of hash_of covered_bytes
  seal_at-check_line p m line hash (fail e) digests reads follows marshals at_hash h unsigned = cc h
  seal_at-check_line p m line hash (pass (value, off)) digests reads follows marshals at_hash h
        unsigned =
      let d : Bytes = o.crypto.digest (write_at off zeros m) in
      let size = (digests (write_at off zeros m)).0 in
      let hex = (digests (write_at off zeros m)).1 in
      let same_line : write_at off d m ≡ line = ap line_of h in
      let same_hash : d ≡ hash = ap hash_of h in
      let f : Field (write_at off d m) hash_field d off =
        Field-write_at m hash_field value d off (omega arith) size hex
          (chain_value-Field m hash_field value off at_hash) in
      let covers : o.crypto.digest (write_at off zeros (write_at off d m)) ≡ d =
        ap o.crypto.digest (write_at-write_at off zeros d m (sym size)) in
      subst (λ l. check_line o.crypto l prev none ≡ pass (hash, p.marker)) same_line
        (subst (λ w. check_line o.crypto (write_at off d m) prev none ≡ pass (w, p.marker))
          same_hash
          (check_line-unsigned o.crypto (write_at off d m) prev d off p f
            (ap (index_from 0 (marker_of signature_field)) same_line ∙ unsigned) covers
            (reads m value d off marshals at_hash size hex) follows))

  seal_line-check_line :
      (p : Parsed) (line hash : Bytes) (marshalled : Option Bytes)
      → IsDigest
      → Reads p
      → or_empty p.prev_hash ≡ prev
      → o.marshal entry ≡ marshalled
      → seal_line o.crypto none marshalled ≡ sealed line hash
      → index_from 0 (marker_of signature_field) line ≡ none
      → check_line o.crypto line prev none ≡ pass (hash, p.marker)
  unfolding seal_line
  seal_line-check_line p line hash none digests reads follows marshals h unsigned = cc h
  seal_line-check_line p line hash (some m) digests reads follows marshals h unsigned =
      seal_at-check_line p m line hash (chain_value m hash_field) digests reads follows marshals
        refl h unsigned

  seal_at-digest :
      (marshalled line hash : Bytes) (v : Checked (Bytes × ℕ))
      → seal_at o.crypto none marshalled v ≡ sealed line hash
      → (b : Bytes) × (hash ≡ o.crypto.digest b)
  unfolding seal_at hash_of covered_bytes
  seal_at-digest m line hash (fail e) h = cc h
  seal_at-digest m line hash (pass (value, off)) h = (write_at off zeros m, sym (ap hash_of h))

  seal_line-digest :
      (line hash : Bytes) (marshalled : Option Bytes)
      → seal_line o.crypto none marshalled ≡ sealed line hash
      → (b : Bytes) × (hash ≡ o.crypto.digest b)
  unfolding seal_line
  seal_line-digest line hash none h = cc h
  seal_line-digest line hash (some m) h = seal_at-digest m line hash (chain_value m hash_field) h

-- The hash of a line that a journal without a key seals is a digest.
pub seal-IsDigestOf :
    (o : Codec) (prev : Bytes) (body : Body) (line hash : Bytes)
    → seal o none prev body ≡ sealed line hash
    → (b : Bytes) × (hash ≡ o.crypto.digest b)
unfolding seal zeros_for
seal-IsDigestOf o prev body line hash h =
    seal_line-digest o prev body line hash (o.marshal (entry o prev body)) h

-- A line that a journal without a key seals passes the check with the hash that was sealed, when the
-- line holds no signature field. SHA-256 in hex gives 64 hex digits, and JSON reads from the line, with
-- any hash in it, the hash of the line before that was written.
pub seal-check_line :
    (o : Codec) (prev : Bytes) (body : Body) (p : Parsed) (line hash : Bytes)
    → IsDigest o prev body
    → Reads o prev body p
    → or_empty p.prev_hash ≡ prev
    → seal o none prev body ≡ sealed line hash
    → index_from 0 (marker_of signature_field) line ≡ none
    → check_line o.crypto line prev none ≡ pass (hash, p.marker)
unfolding seal zeros_for
seal-check_line o prev body p line hash digests reads follows h unsigned =
    seal_line-check_line o prev body p line hash (o.marshal (entry o prev body)) digests reads
      follows refl h unsigned
