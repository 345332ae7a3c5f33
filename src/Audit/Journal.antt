-- ===== src/Audit/Journal.antt =====
-- audit/journal.go: the journal that writes one sealed line for each event with audit records. What
-- the operating system does with a write is an argument; json.Marshal is a parameter.
pub mod Seals
pub mod Cuts
pub mod Resumes
pub mod Grows
pub mod Runs
use wlog.Base.{
  ℕ, zero, suc, ◌+◌, ◌%◌, Bool, true, false, not, ◌&&◌, ◌||◌, Option, none, some, List, [], ◌∷◌,
  ◌++◌, if◌then◌else◌, ◌==◌,
}
use wlog.Value.{Fields}
use wlog.Value.Maps.{has}
use wlog.Audit.Bytes.{Bytes, split_lines, write_at}
use wlog.Audit.Lines.{
  Crypto, Parsed, Marker, LineError, Checked, fail, pass, check_line, chain_value, hash_field,
  signature_field, covered_bytes, zeros, no_bytes,
}

abbrev pub marker_every : ℕ
marker_every = 100

-- What a line is about: an event, or the records and the head so far and the id of the key.
pub data Body : Type 0 where
  event : Fields → Body
  marker : ℕ → Bytes → Option Bytes → Body

-- A body with the fields of the chain, which is what json.Marshal gets.
pub record Entry : Type 0 where
  pub body : Body
  pub prev_hash : Bytes
  pub hash : Bytes
  pub signature : Option Bytes

pub record Codec : Type 0 where
  pub crypto : Crypto
  pub marshal : Entry → Option Bytes

pub data Failure : Type 0 where
  cannot_open : Failure
  cannot_encode : Failure
  bad_field : LineError → Failure
  write_failed : Failure
  sync_failed : Failure
  read_failed : Failure
  aside_failed : Failure
  truncate_failed : Failure
  existing : LineError → Failure

pub data Sealed : Type 0 where
  refused : Failure → Sealed
  sealed : Bytes → Bytes → Sealed

-- The line with its hash, and with its signature where there is a key.
sign_line : Crypto → Bytes → Bytes → ℕ → Checked (Bytes × ℕ) → Sealed
unfolding covered_bytes write_at
sign_line c key line h (fail e) = refused (bad_field e)
sign_line c key line h (pass (sig, s)) =
    let hash = c.digest (covered_bytes line (h ∷ s ∷ [])) in
    sealed (write_at s (c.signature key hash) (write_at h hash line)) hash

seal_at : Crypto → Option Bytes → Bytes → Checked (Bytes × ℕ) → Sealed
unfolding sign_line
seal_at c key line (fail e) = refused (bad_field e)
seal_at c none line (pass (value, h)) =
    let hash = c.digest (covered_bytes line (h ∷ [])) in sealed (write_at h hash line) hash
seal_at c (some key) line (pass (value, h)) =
    sign_line c key line h (chain_value line signature_field)

seal_line : Crypto → Option Bytes → Option Bytes → Sealed
unfolding seal_at
seal_line c key none = refused cannot_encode
seal_line c key (some line) = seal_at c key line (chain_value line hash_field)

pub zeros_for : Option Bytes → Option Bytes
zeros_for none = none
zeros_for (some key) = some zeros

-- The line of a body, without the newline that ends it, and its hash.
unfoldable pub seal : Codec → Option Bytes → Bytes → Body → Sealed
unfolding seal_line zeros_for
seal o key prev body =
    seal_line o.crypto key (
      o.marshal (record { body = body; prev_hash = prev; hash = zeros; signature = zeros_for key }))

-- The journal and its file; a file that is not open has no chain state.
pub record Journal : Type 0 where
  pub file : Bytes
  pub partial_file : Bytes
  pub is_open : Bool
  pub prev : Bytes
  pub records : ℕ
  pub key : Option Bytes

-- What the operating system does: what of a line reaches the file, what of a half line reaches the
-- file for those, and what it answers.
pub record Disk : Type 0 where
  pub opens : Bool
  pub reads : Bool
  pub aside : Bytes → Bytes
  pub sets_aside : Bool
  pub truncates : Bool
  pub reaches : Bytes → Bytes
  pub writes : Bool
  pub syncs : Bool

-- The state after a call, and its error.
abbrev pub Outcome : Type 0
Outcome = Journal × Option Failure

append_sealed : Disk → Journal → Sealed → Outcome
append_sealed d j (refused e) = (j, some e)
append_sealed d j (sealed line hash) =
    let written = record j { file = j.file ++ d.reaches (line ++ 10 ∷ []) } in
    if not d.writes
    then (written, some write_failed)
    else if not d.syncs
    then (written, some sync_failed)
    else (record written { prev = hash }, none)

pub append : Codec → Disk → Body → Journal → Outcome
unfolding append_sealed seal
append o d body j = append_sealed d j (seal o j.key j.prev body)

key_id_of : Crypto → Option Bytes → Option Bytes
key_id_of c none = none
key_id_of c (some key) = some (c.key_id key)

pub append_marker : Codec → Disk → Journal → Outcome
unfolding append key_id_of
append_marker o d j = append o d (marker j.records j.prev (key_id_of o.crypto j.key)) j

-- A line that is counted, and after each hundred a marker.
counted : Codec → Disk → Outcome → Outcome
unfolding append_marker
counted o d (j, some e) = (j, some e)
counted o d (j, none) =
    let more = record j { records = suc j.records } in
    if suc j.records % marker_every == 0 then append_marker o d more else (more, none)

-- `replay`: an empty line is passed over.
replay_line :
    (ℕ → Bytes → Checked (ℕ × Bytes)) → ℕ → Checked (Bytes × Option Marker) → Checked (ℕ × Bytes)
replay_line rest records (fail e) = fail e
replay_line rest records (pass (hash, none)) = rest (suc records) hash
replay_line rest records (pass (hash, some m)) = rest records hash

unfoldable pub replay : Crypto → Option Bytes → List Bytes → ℕ → Bytes → Checked (ℕ × Bytes)
unfolding replay_line
replay c key [] records prev = pass (records, prev)
replay c key (line ∷ lines) records prev =
    if no_bytes line
    then replay c key lines records prev
    else replay_line (replay c key lines) records (check_line c line prev key)

-- `splitTail`: what ends with a newline, and the rest.
-- By whether no newline follows, and whether the byte is one.
add_by : Bool → Bool → ℕ → Bytes → Bytes → Bytes × Bytes
add_by true false c body tail = ([], c ∷ tail)
add_by _ _ c body tail = (c ∷ body, tail)

add_byte : ℕ → Bytes × Bytes → Bytes × Bytes
unfolding add_by
add_byte c (body, tail) = add_by (no_bytes body) (c == 10) c body tail

unfoldable pub split_tail : Bytes → Bytes × Bytes
unfolding add_byte
split_tail [] = ([], [])
split_tail (c ∷ bytes) = add_byte c (split_tail bytes)

-- The file is open for appending, so a write goes after all that it holds: a tail that is a line is
-- written once more, behind the one that is there. Any other tail is set aside and cut off.
resume_tail : Disk → Journal → Bytes → Bytes → ℕ → Bytes → Checked (Bytes × Option Marker) → Outcome
resume_tail d j body tail records prev (pass (hash, m)) =
    let written = record j { file = j.file ++ d.reaches (tail ++ 10 ∷ []) } in
    if not d.writes
    then (written, some write_failed)
    else (record written { records = suc records; prev = hash; is_open = true }, none)
resume_tail d j body tail records prev (fail e) =
    let kept = record j { partial_file = j.partial_file ++ d.aside tail } in
    if not d.sets_aside
    then (kept, some aside_failed)
    else if not d.truncates
    then (kept, some truncate_failed)
    else (record kept { file = body; records = records; prev = prev; is_open = true }, none)

resume_from : Crypto → Disk → Journal → Bytes → Bytes → Checked (ℕ × Bytes) → Outcome
unfolding resume_tail
resume_from c d j body tail (fail e) = (j, some (existing e))
resume_from c d j body tail (pass (records, prev)) =
    if no_bytes tail
    then (record j { records = records; prev = prev; is_open = true }, none)
    else resume_tail d j body tail records prev (check_line c tail prev j.key)

resume_parts : Crypto → Disk → Journal → Bytes × Bytes → Outcome
unfolding resume_from
resume_parts c d j (body, tail) =
    resume_from c d j body tail (replay c j.key (split_lines body) 0 [])

unfoldable pub resume : Crypto → Disk → Journal → Outcome
unfolding resume_parts replay split_tail split_lines
resume c d j = if d.reads then resume_parts c d j (split_tail j.file) else (j, some read_failed)

pub ensure_open : Codec → Disk → Journal → Outcome
unfolding resume
ensure_open o d j =
    if j.is_open
    then (j, none)
    else if not d.opens
    then (j, some cannot_open)
    else resume o.crypto d j

send_open : Codec → Disk → Disk → Fields → Outcome → Outcome
unfolding append counted
send_open o d e fields (j, some failure) = (j, some failure)
send_open o d e fields (j, none) = counted o e (append o d (event fields) j)

-- `Send` of an event, whose floats are finite; the second disk is that of the marker.
pub send : Codec → Disk → Disk → Fields → Journal → Outcome
unfolding ensure_open send_open
send o d e fields j =
    if has "audit" fields then send_open o d e fields (ensure_open o d j) else (j, none)

after_close : Outcome → Outcome
after_close (j, e) = (record j { is_open = false }, e)

-- `Close`: the closing marker, where the file holds records.
pub close : Codec → Disk → Journal → Outcome
unfolding append_marker after_close
close o d j =
    if not j.is_open
    then (j, none)
    else if j.records == 0
    then after_close (j, none)
    else after_close (append_marker o d j)
