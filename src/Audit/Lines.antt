-- ===== src/Audit/Lines.antt =====
-- One line of a journal, in audit/journal.go and audit/verify.go: the value of a chain field, the bytes
-- that the hash covers, and the check of a line.
pub mod Facts
pub mod Writes
pub mod Fixed
pub mod Doubled
use wlog.Base.{
  ℕ, zero, suc, ◌+◌, Bool, true, false, not, ◌&&◌, ◌||◌, Option, none, some, List, [], ◌∷◌, ◌++◌,
  String, replicate, if◌then◌else◌, leb, ◌==◌, length, take, drop, get_elem?, all,
}
use wlog.Base.Int.{ℤ}
use wlog.Audit.Bytes.{Bytes, bytes, same_bytes, index_from, contains, write_at}

-- The body of a marker line: what it holds under its keys, where that is of the type asked for.
pub record Marker : Type 0 where
  pub count : Option ℤ
  pub head : Option Bytes
  pub key_id : Option Bytes

-- What the check reads of a line as JSON.
pub record Parsed : Type 0 where
  pub prev_hash : Option Bytes
  pub marker : Option Marker

-- `sha256.Sum256` and `signature` in hex, `keyID`, and `json.Unmarshal` of a line.
pub record Crypto : Type 0 where
  pub digest : Bytes → Bytes
  pub signature : Bytes → Bytes → Bytes
  pub key_id : Bytes → Bytes
  pub parse : Bytes → Option Parsed

pub data LineError : Type 0 where
  empty_line : LineError
  missing : Bytes → LineError
  duplicate : Bytes → LineError
  malformed : Bytes → LineError
  hash_mismatch : LineError
  invalid_json : LineError
  wrong_prev : Bytes → LineError
  missing_signature : LineError
  signature_mismatch : LineError

pub data Checked (A : Type 0) : Type 0 where
  fail : LineError → Checked A
  pass : A → Checked A

abbrev pub hash_field : Bytes
hash_field = bytes "audit.hash"

abbrev pub signature_field : Bytes
signature_field = bytes "audit.signature"

-- The field's name in quotation marks, a colon and a quotation mark.
abbrev pub marker_of : Bytes → Bytes
marker_of field = 34 ∷ (field ++ 34 ∷ 58 ∷ []) ++ 34 ∷ []

-- A digit that `hex.DecodeString` takes.
abbrev pub is_hex_byte : ℕ → Bool
is_hex_byte c = (leb 48 c && leb c 57) || ((leb 97 c && leb c 102) || (leb 65 c && leb c 70))

abbrev pub is_quote : Option ℕ → Bool
is_quote none = false
is_quote (some c) = c == 34

-- The value that starts at a position.
unfoldable pub value_at : Bytes → Bytes → ℕ → Checked (Bytes × ℕ)
value_at line field start =
    if leb (length line) (start + 64) || not (is_quote (get_elem? line (start + 64)))
    then fail (malformed field)
    else if all is_hex_byte (take 64 (drop start line))
    then pass (take 64 (drop start line), start)
    else fail (malformed field)

unfoldable pub value_after : Bytes → Bytes → Option ℕ → Checked (Bytes × ℕ)
unfolding value_at
value_after line field none = fail (missing field)
value_after line field (some first) =
    if contains (drop (suc first) line) (marker_of field)
    then fail (duplicate field)
    else value_at line field (first + length (marker_of field))

unfoldable pub chain_value : Bytes → Bytes → Checked (Bytes × ℕ)
unfolding value_after
chain_value line field = value_after line field (index_from 0 (marker_of field) line)

abbrev pub zeros : Bytes
zeros = replicate 64 48

unfoldable pub covered_bytes : Bytes → List ℕ → Bytes
covered_bytes line [] = line
covered_bytes line (off ∷ offsets) = covered_bytes (write_at off zeros line) offsets

-- A field that is no text reads as the empty text.
abbrev pub or_empty : Option Bytes → Bytes
or_empty none = []
or_empty (some b) = b

-- With a key, the line must be signed with it.
check_signature :
    Crypto → Option Bytes → Bytes → Option Bytes → Option Marker → Checked (Bytes × Option Marker)
check_signature c none hash sig m = pass (hash, m)
check_signature c (some key) hash none m = fail missing_signature
check_signature c (some key) hash (some sig) m =
    if same_bytes (c.signature key hash) sig then pass (hash, m) else fail signature_mismatch

check_parsed :
    Crypto
    → Bytes
    → Option Bytes
    → Bytes
    → Option Bytes
    → Option Parsed
    → Checked (Bytes × Option Marker)
unfolding check_signature
check_parsed c prev key hash sig none = fail invalid_json
check_parsed c prev key hash sig (some p) =
    if same_bytes (or_empty p.prev_hash) prev
    then check_signature c key hash sig p.marker
    else fail (wrong_prev (or_empty p.prev_hash))

-- The hash in the line against the bytes that it covers.
check_hash :
    Crypto
    → Bytes
    → Bytes
    → Option Bytes
    → Bytes
    → List ℕ
    → Option Bytes
    → Checked (Bytes × Option Marker)
unfolding check_parsed covered_bytes
check_hash c line prev key stored offsets sig =
    if same_bytes stored (c.digest (covered_bytes line offsets))
    then check_parsed c prev key (c.digest (covered_bytes line offsets)) sig (c.parse line)
    else fail hash_mismatch

-- The signature is covered as zeros too, where the line has one.
with_signature :
    Crypto
    → Bytes
    → Bytes
    → Option Bytes
    → Bytes × ℕ
    → Checked (Bytes × ℕ)
    → Checked (Bytes × Option Marker)
unfolding check_hash
with_signature c line prev key (stored, h) (fail e) =
    check_hash c line prev key stored (h ∷ []) none
with_signature c line prev key (stored, h) (pass (sig, s)) =
    check_hash c line prev key stored (h ∷ s ∷ []) (some sig)

with_hash :
    Crypto → Bytes → Bytes → Option Bytes → Checked (Bytes × ℕ) → Checked (Bytes × Option Marker)
unfolding with_signature chain_value
with_hash c line prev key (fail e) = fail e
with_hash c line prev key (pass stored) =
    with_signature c line prev key stored (chain_value line signature_field)

unfoldable pub no_bytes : Bytes → Bool
no_bytes [] = true
no_bytes (c ∷ line) = false

unfoldable pub check_line : Crypto → Bytes → Bytes → Option Bytes → Checked (Bytes × Option Marker)
unfolding with_hash
check_line c line prev key =
    if no_bytes line
    then fail empty_line
    else with_hash c line prev key (chain_value line hash_field)
