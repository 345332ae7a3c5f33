-- ===== src/Audit/Lines/Writes.antt =====
-- Lines with another value in a field, and lines that the check accepts.
use wlog.Base.{
  ℕ, suc, ◌+◌, ◌≤◌, ◌<◌, ◌≡◌, refl, ap, sym, subst, ◌∙◌, true, false, none, some, [], ◌∷◌, ◌++◌,
  length, all, arith,
}
use wlog.Audit.Bytes.{Bytes, index_from, write_at}
use wlog.Audit.Bytes.Writes.{plain, slice, slice-write_at_self, get_elem?-write_at, length-write_at}
use wlog.Audit.Bytes.Places.{index_from-write_at, contains-write_at}
use wlog.Audit.Lines.{
  Crypto, Parsed, fail, pass, LineError, check_line, check_hash, check_parsed, check_signature,
  with_hash, with_signature, chain_value, value_after, hash_field, signature_field, marker_of,
  is_hex_byte, is_quote, covered_bytes, no_bytes, or_empty,
}
use wlog.Audit.Lines.Facts.{
  Field, Field-plain, all_hex-plain, Field-chain_value, same_bytes_complete,
}

-- A field with another value of 64 hex digits is that field with the other value.
pub Field-write_at :
    (line field value new : Bytes) (off : ℕ)
    → suc (length (field ++ 34 ∷ 58 ∷ [])) < 64
    → length new ≡ 64
    → all is_hex_byte new ≡ true
    → Field line field value off
    → Field (write_at off new line) field new off
Field-write_at line field value new off short size hex f =
    let m : Bytes = field ++ 34 ∷ 58 ∷ [] in
    let f_fits = f.fits in
    let f_after = f.after in
    let fits : off + length new ≤ length line = omega (arith, f_fits, size) in
    let old_plain : all plain (slice off (length new) line) ≡ true =
      subst (λ n. all plain (slice off n line) ≡ true) (sym size) (Field-plain f) in
    let new_plain = all_hex-plain new hex in
    let same_length = length-write_at off new line in
    record {
      first = f.first;
      found =
          index_from-write_at 0 m off new line (omega (arith, short, size)) fits old_plain new_plain
          ∙ f.found;
      after = f.after;
      fits = omega (arith, f_fits, same_length);
      is_value =
          subst (λ n. slice off n (write_at off new line) ≡ new) size
            (slice-write_at_self off new line fits);
      is_hex = hex;
      once =
          contains-write_at m (suc f.first) off new line (omega (arith, short, size))
            (omega (arith, f_after)) fits old_plain new_plain
          ∙ f.once;
      ends =
          ap is_quote (get_elem?-write_at off new line (off + 64) (omega (arith, size))) ∙ f.ends;
    }

-- A line without a field has no value of it.
chain_value-missing :
    (line field : Bytes)
    → index_from 0 (marker_of field) line ≡ none
    → chain_value line field ≡ fail (LineError.missing field)
unfolding chain_value value_after
chain_value-missing line field e = rw e refl

Field-no_bytes :
    {line field value : Bytes} {off : ℕ} → Field line field value off → no_bytes line ≡ false
unfolding no_bytes
Field-no_bytes {line = []} f = let fits = f.fits in ground (arith, fits)
Field-no_bytes {line = c ∷ line} f = refl

-- The check of an unsigned line without a key.
pub check_line-unsigned :
    (c : Crypto) (line prev hash : Bytes) (h : ℕ) (p : Parsed)
    → Field line hash_field hash h
    → index_from 0 (marker_of signature_field) line ≡ none
    → c.digest (covered_bytes line (h ∷ [])) ≡ hash
    → c.parse line ≡ some p
    → or_empty p.prev_hash ≡ prev
    → check_line c line prev none ≡ pass (hash, p.marker)
unfolding check_line with_hash with_signature check_hash check_parsed check_signature
check_line-unsigned c line prev hash h p f unsigned covers parsed follows =
    rw
      (
        Field-no_bytes f,
        Field-chain_value f,
        chain_value-missing line signature_field unsigned,
        covers,
        same_bytes_complete hash,
        parsed,
        follows,
        same_bytes_complete prev,
      )
      refl
