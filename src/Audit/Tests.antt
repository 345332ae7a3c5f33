-- ===== src/Audit/Tests.antt =====
-- Journals whose digest is a text of 64 digits, and the theorems applied to them.
mod Chains
use wlog.Value.{Fields, end, field, null}
use wlog.Audit.Journal.{
  Codec, Body, Sealed, marker, refused, event, sealed, seal, Journal, resume, replay,
}
use wlog.Base.Int.{pos}
use wlog.Audit.Journal.Grows.{working}
use wlog.Audit.Verify.Walks.{no_newline}
use wlog.Audit.Lines.Facts.{same_bytes_sound}
use wlog.Base.{
  Option, arith, Bool-cases, inl, inr, ap, sym, subst, Bool, true, false, ◌==◌, length, all, ℕ, ◌+◌,
  ◌%◌, ◌≡◌, refl, none, some, [], ◌∷◌, ◌++◌, replicate, ◌⊎◌,
}
use wlog.Audit.Bytes.{Bytes, bytes, same_bytes, index_from, split_lines}
use wlog.Audit.Lines.{
  Crypto, Parsed, hash_mismatch, duplicate, hash_field, check_line, pass, fail, is_hex_byte,
  marker_of, signature_field,
}
use wlog.Audit.Verify.{broken, intact, bad_line, verify, journal_lines}
use wlog.Audit.Verify.Tamper.{Collision, verify-same}
use wlog.Audit.Verify.Tamper.Heads.{verify_head-same}
use wlog.Audit.Verify.{verify_head}

abbrev pub sum : Bytes → ℕ
sum [] = 0
sum (b ∷ bs) = b + sum bs

-- One digit, by the sum of the bytes.
abbrev toy : Crypto
toy = record {
  digest = λ b. replicate 64 (48 + sum b % 10);
  signature = λ key hash. replicate 64 49;
  key_id = λ key. key;
  parse = λ line. some (record { prev_hash = none; marker = none });
}

abbrev line_with : Bytes → Bytes → Bytes
line_with hash sig =
    bytes "{\"audit.hash\":\"" ++ hash ++ bytes "\",\"audit.signature\":\"" ++ sig ++ bytes "\"}"

abbrev digits : Bytes
digits = replicate 64 52

abbrev one_line : Bytes
one_line = line_with digits (replicate 64 49)

one_line_intact : verify toy (some (bytes "k")) (some one_line) ≡ intact 1 digits
unfolding verify wlog.Audit.Lines.no_bytes wlog.Audit.Lines.check_line wlog.Audit.Bytes.index_from
    wlog.Audit.Bytes.contains wlog.Audit.Bytes.same_bytes wlog.Audit.Bytes.write_at
one_line_intact = refl

ended_line_intact : verify toy (some (bytes "k")) (some (one_line ++ 10 ∷ [])) ≡ intact 1 digits
unfolding verify wlog.Audit.Lines.no_bytes wlog.Audit.Lines.check_line wlog.Audit.Bytes.index_from
    wlog.Audit.Bytes.contains wlog.Audit.Bytes.same_bytes wlog.Audit.Bytes.write_at
ended_line_intact = refl

changed_line_broken :
    verify toy (some (bytes "k")) (some (32 ∷ one_line)) ≡ broken (bad_line 1 hash_mismatch)
unfolding verify wlog.Audit.Lines.no_bytes wlog.Audit.Lines.check_line wlog.Audit.Bytes.index_from
    wlog.Audit.Bytes.contains wlog.Audit.Bytes.same_bytes wlog.Audit.Bytes.write_at
changed_line_broken = refl

verify-same_example :
    (journal_lines one_line ≡ journal_lines (one_line ++ 10 ∷ []))
    ⊎ Collision toy (journal_lines one_line) (journal_lines (one_line ++ 10 ∷ []))
verify-same_example =
    verify-same toy (bytes "k") one_line (one_line ++ 10 ∷ []) 1 1 digits one_line_intact
      ended_line_intact

one_line_headed : verify_head toy (some (bytes "k")) digits one_line ≡ intact 1 digits
unfolding verify_head verify wlog.Audit.Lines.no_bytes wlog.Audit.Lines.check_line
    wlog.Audit.Bytes.index_from wlog.Audit.Bytes.contains wlog.Audit.Bytes.same_bytes
    wlog.Audit.Bytes.write_at
one_line_headed = refl

ended_line_headed :
    verify_head toy (some (bytes "k")) digits (one_line ++ 10 ∷ []) ≡ intact 1 digits
unfolding verify_head verify wlog.Audit.Lines.no_bytes wlog.Audit.Lines.check_line
    wlog.Audit.Bytes.index_from wlog.Audit.Bytes.contains wlog.Audit.Bytes.same_bytes
    wlog.Audit.Bytes.write_at
ended_line_headed = refl

verify_head-same_example :
    (journal_lines one_line ≡ journal_lines (one_line ++ 10 ∷ []))
    ⊎ Collision toy (journal_lines one_line) (journal_lines (one_line ++ 10 ∷ []))
verify_head-same_example =
    verify_head-same toy (bytes "k") digits one_line (one_line ++ 10 ∷ []) 1 1 digits digits
      one_line_headed ended_line_headed

-- A digest of a digit by the parity of the bytes.
abbrev pub parity : Bool → Bytes
parity true = replicate 64 48
parity false = replicate 64 97

abbrev pub even : Crypto
even = record toy { digest = λ b. parity (sum b % 2 == 0) }

-- A line holds its hash alone, or a signature too that was there before.
abbrev plain_codec : Codec
plain_codec = record {
  crypto = even;
  marshal = λ e. some (bytes "{\"audit.hash\":\"" ++ e.hash ++ bytes "\"}");
}

abbrev signed_before : Codec
signed_before = record {
  crypto = even;
  marshal = λ e. some (line_with e.hash (49 ∷ replicate 63 48));
}

abbrev sealed_line : Bytes
sealed_line = bytes "{\"audit.hash\":\"" ++ replicate 64 97 ++ bytes "\"}"

seals : seal plain_codec none [] (event end) ≡ sealed sealed_line (replicate 64 97)
unfolding wlog.Audit.Lines.no_bytes wlog.Audit.Lines.check_line wlog.Audit.Bytes.index_from
    wlog.Audit.Bytes.contains wlog.Audit.Bytes.same_bytes wlog.Audit.Bytes.write_at
    wlog.Audit.Lines.chain_value seal
seals = refl

parity-IsDigest : (b : Bool) → (length (parity b) ≡ 64) × (all is_hex_byte (parity b) ≡ true)
parity-IsDigest true = (refl, refl)
parity-IsDigest false = (refl, refl)

-- A journal without a key covers the bytes of a signature that the event has already; the check covers
-- zeros in their place.
abbrev resealed_line : Bytes
resealed_line = line_with (replicate 64 97) (49 ∷ replicate 63 48)

seals_signed : seal signed_before none [] (event end) ≡ sealed resealed_line (replicate 64 97)
unfolding wlog.Audit.Lines.no_bytes wlog.Audit.Lines.check_line wlog.Audit.Bytes.index_from
    wlog.Audit.Bytes.contains wlog.Audit.Bytes.same_bytes wlog.Audit.Bytes.write_at
    wlog.Audit.Lines.chain_value seal
seals_signed = refl

signed_refused : check_line even resealed_line [] none ≡ fail hash_mismatch
unfolding wlog.Audit.Lines.no_bytes wlog.Audit.Lines.check_line wlog.Audit.Bytes.index_from
    wlog.Audit.Bytes.contains wlog.Audit.Bytes.same_bytes wlog.Audit.Bytes.write_at
    wlog.Audit.Lines.chain_value
signed_refused = refl

-- A journal whose file is one intact line, a marker or a record, without its newline.
abbrev stopped : Journal
stopped = record {
  file = sealed_line;
  partial_file = [];
  is_open = false;
  prev = [];
  records = 0;
  key = none;
}

-- The line stands twice, so the file that resume leaves is one that it refuses the next time.
resumed_twice :
    replay even none (split_lines (resume even working stopped).0.file) 0 []
    ≡ fail (duplicate hash_field)
unfolding resume wlog.Audit.Lines.check_line wlog.Audit.Lines.no_bytes index_from
    wlog.Audit.Bytes.contains wlog.Audit.Bytes.same_bytes wlog.Audit.Bytes.write_at
resumed_twice = refl
