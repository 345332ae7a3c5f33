-- ===== src/Propagate/Traceparent.antt =====
-- The W3C traceparent header of propagate/propagate.go.
pub mod RoundTrip
use Prim.Native.Char.{Char, code}
use Prim.Native.String.{len, [] as blank, ◌∷◌ as prepend}
use wlog.Base.{
  ℕ, ◌+◌, ◌*◌, ◌-◌, ◌%◌, ◌≤◌, ◌≡◌, refl, ap, ◌∙◌, Bool, true, false, not, ◌&&◌, ◌||◌, Option, none,
  some, List, [], ◌∷◌, String, str_eq, eq_iff, if◌then◌else◌, leb, ltb, ◌==◌, Bool-cases, inl, inr,
  arith,
}
use wlog.Base.Strings.{
  ◌<>◌, all_chars, is_blank, trim, split, split-one, split-append, all_chars-implies,
}

pub record Parent : Type 0 where
  pub trace_id : String
  pub span_id : String
  pub sampled : Bool

abbrev pub is_dash : Char → Bool
is_dash c = code c == 45

abbrev pub valid_hex_byte : Char → Bool
valid_hex_byte c = (leb 48 (code c) && leb (code c) 57) || (leb 97 (code c) && leb (code c) 102)

-- `isHex`: the length is in bytes, and a character outside of ASCII is no hex digit.
unfoldable pub is_hex : String → ℕ → Bool
is_hex s n = (len s == n) && all_chars valid_hex_byte s

unfoldable pub is_zero : String → Bool
unfolding trim
is_zero s = is_blank (trim (λ c. code c == 48) s)

abbrev digit : Char → ℕ
digit c = if leb (code c) 57 then code c - 48 else code c - 87

-- `strconv.ParseUint` of hex digits, from a value so far.
hex_from : ℕ → String → ℕ
hex_from acc blank = acc
hex_from acc (prepend c s) = hex_from (acc * 16 + digit c) s

is_odd_hex : String → Bool
unfolding hex_from
is_odd_hex s = hex_from 0 s % 2 == 1

no_parts : List String → Bool
no_parts [] = true
no_parts (p ∷ ps) = false

-- Version 00 has no more than four parts, and version ff is not valid.
valid_version : String → List String → Bool
valid_version version rest =
    (no_parts rest || not (str_eq version "00")) && (is_hex version 2 && not (str_eq version "ff"))

abbrev pub is_trace_id : String → Bool
is_trace_id s = is_hex s 32 && not (is_zero s)

abbrev pub is_span_id : String → Bool
is_span_id s = is_hex s 16 && not (is_zero s)

parse_parts : List String → Option Parent
unfolding valid_version no_parts is_odd_hex
parse_parts (version ∷ trace ∷ span ∷ flags ∷ rest) =
    if valid_version version rest && (is_trace_id trace && (is_span_id span && is_hex flags 2))
    then some (record { trace_id = trace; span_id = span; sampled = is_odd_hex flags })
    else none
parse_parts _ = none

pub parse_traceparent : String → Option Parent
unfolding parse_parts
parse_traceparent value = parse_parts (split is_dash value)

pub traceparent_header : String → String → Bool → String
traceparent_header trace_id span_id sampled =
    "00-" <> (trace_id <> ("-" <> (span_id <> ("-" <> (if sampled then "01" else "00")))))

hex_has_no_dash :
    (s : String) (n : ℕ) → is_hex s n ≡ true → all_chars (λ c. not (is_dash c)) s ≡ true
unfolding is_hex
hex_has_no_dash s n h =
    all_chars-implies valid_hex_byte (λ c. not (is_dash c)) s (λ c hex. ground arith)
      (ground (arith, h))
