-- ===== src/Audit/Journal/Resumes.antt =====
-- What a journal that is opened again holds.
use wlog.Base.{ℕ, ◌≡◌, ◌⊎◌, true, Option, none, some, List, [], ◌∷◌, ◌++◌}
use wlog.Audit.Bytes.{Bytes, split_lines}
use wlog.Audit.Lines.{Crypto, Marker, Checked, fail, pass, duplicate, hash_field, check_line}
use wlog.Audit.Journal.{Journal, Outcome, Disk, replay, split_tail}

counts_of : Checked (ℕ × Bytes) → ℕ
counts_of (fail e) = 0
counts_of (pass (n, w)) = n

head_of : Checked (ℕ × Bytes) → Bytes
head_of (fail e) = []
head_of (pass (n, w)) = w

-- A replay goes on after the lines of the body.
abbrev MoreOf : Crypto → Option Bytes → List Bytes → Bytes → Type 0
MoreOf c key lines tail =
    (r n : ℕ) (p q : Bytes)
    → replay c key (lines ++ [] ∷ []) r p ≡ pass (n, q)
    → replay c key (lines ++ tail ∷ [] ∷ []) r p ≡ replay c key (tail ∷ [] ∷ []) n q

-- What a call of resume leaves: on an error, a journal that is not open, with the file that it had and
-- maybe more behind it; else a file whose replay gives the records and the head, unless the file
-- ended in a line without its newline, in which case the replay fails at a line with two hashes.
abbrev pub TailIsLine : Crypto → Journal → Type 0
TailIsLine c j =
    (prev : Bytes) × (r : Bytes × Option Marker) × (check_line c (split_tail j.file).1 prev j.key
      ≡ pass r)

abbrev pub Replays : Crypto → Journal → Checked (ℕ × Bytes) → Type 0
Replays c after r = replay c after.key (split_lines after.file) 0 [] ≡ r

abbrev pub Resumed : Crypto → Journal → Outcome → Type 0
Resumed c j (after, some e) =
    (after.is_open ≡ j.is_open)
    × (after.records ≡ j.records)
    × (after.prev ≡ j.prev)
    × ((rest : Bytes) × (after.file ≡ j.file ++ rest))
Resumed c j (after, none) =
    Replays c after (pass (after.records, after.prev))
    ⊎ (TailIsLine c j × Replays c after (fail (duplicate hash_field)))

-- A write that succeeds writes all of it.
abbrev pub WritesAll : Disk → Type 0
WritesAll d = (b : Bytes) → d.writes ≡ true → d.reaches b ≡ b
