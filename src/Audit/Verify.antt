-- ===== src/Audit/Verify.antt =====
-- audit/verify.go: the walk of a journal.
pub mod Tamper
pub mod Walks
use wlog.Base.{
  ℕ, zero, suc, ◌+◌, Bool, true, false, not, ◌&&◌, ◌||◌, Option, none, some, List, [], ◌∷◌, ◌++◌,
  if◌then◌else◌, ◌==◌,
}
use wlog.Base.Int.{ℤ, pos, negsuc}
use wlog.Audit.Bytes.{Bytes, bytes, same_bytes, split_lines}
use wlog.Audit.Lines.{
  Crypto, Marker, LineError, Checked, fail, pass, check_line, or_empty, chain_value, hash_field,
  no_bytes,
}

-- The number of a line comes with its error.
pub data VerifyError : Type 0 where
  unreadable : VerifyError
  empty_journal : VerifyError
  bad_line : ℕ → LineError → VerifyError
  marker_count : ℕ → VerifyError
  marker_head : ℕ → VerifyError
  marker_key : ℕ → VerifyError
  bad_head : LineError → VerifyError
  other_head : Bytes → VerifyError
  needs_key : VerifyError

-- What a walk came to: the records and the hash of the last line, or the first error.
pub data Walk : Type 0 where
  broken : VerifyError → Walk
  intact : ℕ → Bytes → Walk

same_count : Option ℤ → ℕ → Bool
same_count (some (pos n)) records = n == records
same_count _ records = false

names_key : Crypto → Option Bytes → Option Bytes → Bool
names_key c none id = true
names_key c (some key) id = same_bytes (or_empty id) (c.key_id key)

check_marker : Crypto → Marker → ℕ → Bytes → Option Bytes → ℕ → Option VerifyError
unfolding same_count names_key
check_marker c body records prev key n =
    if not (same_count body.count records)
    then some (marker_count n)
    else if not (same_bytes (or_empty body.head) prev)
    then some (marker_head n)
    else if not (names_key c key body.key_id)
    then some (marker_key n)
    else none

-- The walk over the lines that are left: the number of the line before them, the records so far and
-- the hash of the line before. The rest of the walk is an argument of what goes on with it.
after_marker : (ℕ → Bytes → Walk) → ℕ → Bytes → Option VerifyError → Walk
after_marker rest records hash (some e) = broken e
after_marker rest records hash none = rest records hash

after_line :
    Crypto
    → Option Bytes
    → (ℕ → Bytes → Walk)
    → ℕ
    → ℕ
    → Bytes
    → Checked (Bytes × Option Marker)
    → Walk
unfolding after_marker check_marker
after_line c key rest n records prev (fail e) = broken (bad_line n e)
after_line c key rest n records prev (pass (hash, none)) = rest (suc records) hash
after_line c key rest n records prev (pass (hash, some body)) =
    after_marker rest records hash (check_marker c body records prev key n)

unfoldable pub walk : Crypto → Option Bytes → List Bytes → ℕ → ℕ → Bytes → Walk
unfolding after_line
walk c key [] n records prev = intact records prev
walk c key (line ∷ lines) n records prev =
    after_line c key (walk c key lines (suc n)) (suc n) records prev (check_line c line prev key)

-- The newline that ends the last line starts no line.
unfoldable pub drop_last_empty : List Bytes → List Bytes
drop_last_empty [] = []
drop_last_empty (p ∷ []) = if no_bytes p then [] else p ∷ []
drop_last_empty (p ∷ q ∷ ps) = p ∷ drop_last_empty (q ∷ ps)

unfoldable pub journal_lines : Bytes → List Bytes
unfolding drop_last_empty split_lines
journal_lines body = drop_last_empty (split_lines body)

-- `Verify` of what reading the file gave.
unfoldable pub verify : Crypto → Option Bytes → Option Bytes → Walk
unfolding walk journal_lines
verify c key none = broken unreadable
verify c key (some body) =
    if no_bytes body then broken empty_journal else walk c key (journal_lines body) 0 0 []

-- `bytes.TrimRight(data, "\n")`
unfoldable pub trim_newlines : Bytes → Bytes
trim_newlines [] = []
trim_newlines (c ∷ body) =
    let rest = trim_newlines body in if (c == 10) && no_bytes rest then [] else c ∷ rest

last_line : List Bytes → Bytes
last_line [] = []
last_line (l ∷ []) = l
last_line (l ∷ k ∷ lines) = last_line (k ∷ lines)

at_head : Bytes → Walk → Checked (Bytes × ℕ) → Walk
at_head want w (fail e) = broken (bad_head e)
at_head want w (pass (got, off)) = if same_bytes got want then w else broken (other_head got)

head_checked : Bytes → Bytes → Walk → Walk
unfolding at_head trim_newlines last_line
head_checked body want (broken e) = broken e
head_checked body want (intact records hash) =
    at_head want (intact records hash)
      (chain_value (last_line (split_lines (trim_newlines body))) hash_field)

unfoldable pub verify_head : Crypto → Option Bytes → Bytes → Bytes → Walk
unfolding head_checked verify
verify_head c key want body = head_checked body want (verify c key (some body))

-- `VerifySigned`
pub verify_signed : Crypto → Option Bytes → Option Bytes → Walk
unfolding verify
verify_signed c none file = broken needs_key
verify_signed c (some key) file = verify c (some key) file
