-- ===== src/Audit/Bytes.antt =====
-- Go's functions on byte slices that the journal uses.
pub mod Writes
pub mod Places
use Prim.Native.Char.{Char, code}
use Prim.Native.String.{String, [] as blank, ◌∷◌ as prepend}
use wlog.Base.{
  ℕ, zero, suc, ◌+◌, Bool, true, false, not, ◌&&◌, ◌||◌, Option, none, some, List, [], ◌∷◌, ◌++◌,
  map, replicate, if◌then◌else◌, leb, ◌==◌, length,
}

abbrev pub Bytes : Type 0
Bytes = List ℕ

-- The bytes of an ASCII text.
abbrev pub bytes : String → Bytes
bytes blank = []
bytes (prepend c s) = code c ∷ bytes s

unfoldable pub same_bytes : Bytes → Bytes → Bool
same_bytes [] [] = true
same_bytes (b ∷ bs) (c ∷ cs) = (b == c) && same_bytes bs cs
same_bytes _ _ = false

unfoldable pub has_prefix : Bytes → Bytes → Bool
has_prefix [] line = true
has_prefix (b ∷ m) [] = false
has_prefix (b ∷ m) (c ∷ line) = (b == c) && has_prefix m line

-- `bytes.Index` from a position on.
unfoldable pub index_from : ℕ → Bytes → Bytes → Option ℕ
unfolding has_prefix
index_from n m [] = if has_prefix m [] then some n else none
index_from n m (c ∷ line) =
    let later = index_from (suc n) m line in if has_prefix m (c ∷ line) then some n else later

unfoldable pub is_found : Option ℕ → Bool
is_found none = false
is_found (some n) = true

-- `bytes.Contains`
unfoldable pub contains : Bytes → Bytes → Bool
unfolding index_from is_found
contains line m = is_found (index_from 0 m line)

abbrev pub or_byte : ℕ → Option ℕ → ℕ
or_byte c none = c
or_byte c (some b) = b

-- The bytes of a line with those of another slice over them, where it has one.
unfoldable pub overlay : List (Option ℕ) → Bytes → Bytes
overlay [] line = line
overlay (o ∷ os) [] = []
overlay (o ∷ os) (c ∷ line) = or_byte c o ∷ overlay os line

abbrev pub at : ℕ → Bytes → List (Option ℕ)
at off new = replicate off none ++ map some new

-- `copy(line[off:], new)`
unfoldable pub write_at : ℕ → Bytes → Bytes → Bytes
unfolding overlay
write_at off new line = overlay (at off new) line

-- `bytes.Split` by a newline.
unfoldable pub grow : ℕ → List Bytes → List Bytes
grow c [] = (c ∷ []) ∷ []
grow c (p ∷ ps) = (c ∷ p) ∷ ps

unfoldable pub split_lines : Bytes → List Bytes
unfolding grow
split_lines [] = [] ∷ []
split_lines (c ∷ body) =
    let parts = split_lines body in if c == 10 then [] ∷ parts else grow c parts
