-- ===== src/Audit/Verify/Tamper/Trim.antt =====
-- The last newlines of a file in audit/verify.go, and what is left of its lines.
use wlog.Base.{
  ℕ, ◌≡◌, refl, ap, sym, ◌∙◌, Bool, true, false, not, ◌&&◌, List, [], ◌∷◌, if◌then◌else◌, ◌==◌, all,
  Bool-cases, inl, inr, arith,
}
use wlog.Audit.Bytes.{Bytes, split_lines, grow}
use wlog.Audit.Lines.{no_bytes}
use wlog.Audit.Verify.{drop_last_empty, trim_newlines}

abbrev pub is_full : Bytes → Bool
is_full line = not (no_bytes line)

abbrev pub full : List Bytes → Bool
full lines = all is_full lines

abbrev rest_full : List Bytes → Bool
rest_full [] = true
rest_full (l ∷ ls) = full ls

no_bytes-nil : (b : Bytes) → no_bytes b ≡ true → b ≡ []
unfolding no_bytes
no_bytes-nil [] e = refl
no_bytes-nil (c ∷ b) e = cc e

-- What is left of lines when the last one, if it is empty, is taken off: of lines with a byte more in
-- the first, which is not empty where it is the only one.
abbrev AloneFull : List Bytes → Type 0
AloneFull [] = true ≡ true
AloneFull (l ∷ []) = no_bytes l ≡ false
AloneFull (l ∷ k ∷ ls) = true ≡ true

drop-grow :
    (c : ℕ) (S : List Bytes) → AloneFull S → drop_last_empty (grow c S) ≡ grow c (drop_last_empty S)
unfolding drop_last_empty grow no_bytes
drop-grow c [] a = refl
drop-grow c (l ∷ []) a = rw a refl
drop-grow c (l ∷ k ∷ ls) a = refl

rest_full-grow : (c : ℕ) (S : List Bytes) → rest_full (grow c S) ≡ rest_full S
unfolding grow
rest_full-grow c [] = refl
rest_full-grow c (l ∷ ls) = refl

grow-AloneFull : (c : ℕ) (S : List Bytes) → AloneFull (grow c S)
unfolding grow no_bytes
grow-AloneFull c [] = refl
grow-AloneFull c (l ∷ []) = refl
grow-AloneFull c (l ∷ k ∷ ls) = refl

-- The lines of a text are never none.
abbrev IsSome : List Bytes → Type 0
IsSome [] = true ≡ false
IsSome (l ∷ ls) = true ≡ true

grow-IsSome : (c : ℕ) (S : List Bytes) → IsSome (grow c S)
unfolding grow
grow-IsSome c [] = refl
grow-IsSome c (l ∷ ls) = refl

split_lines-IsSome : (body : Bytes) → IsSome (split_lines body)
unfolding split_lines
split_lines-IsSome [] = refl
split_lines-IsSome (c ∷ body) =
    elim (c == 10)
      as (λ b. IsSome (if b then [] ∷ split_lines body else grow c (split_lines body))) [
        | true ↦ refl
        | false ↦ grow-IsSome c (split_lines body)
      ]

ended-AloneFull : (S : List Bytes) → IsSome S → AloneFull ([] ∷ S)
ended-AloneFull [] s = cc s
ended-AloneFull (l ∷ ls) s = refl

split_lines-AloneFull : (c : ℕ) (body : Bytes) → AloneFull (split_lines (c ∷ body))
unfolding split_lines
split_lines-AloneFull c body =
    elim (c == 10)
      as (λ b. AloneFull (if b then [] ∷ split_lines body else grow c (split_lines body))) [
        | true ↦ ended-AloneFull (split_lines body) (split_lines-IsSome body)
        | false ↦ grow-AloneFull c (split_lines body)
      ]

drop-ended : (S : List Bytes) → IsSome S → drop_last_empty ([] ∷ S) ≡ [] ∷ drop_last_empty S
unfolding drop_last_empty
drop-ended [] s = cc s
drop-ended (l ∷ ls) s = refl

pub full-rest : (S : List Bytes) → full S ≡ true → rest_full S ≡ true
full-rest [] h = refl
full-rest (l ∷ ls) h = ground (arith, h)

split_ended :
    (c : ℕ) (line : Bytes) → (c == 10) ≡ true → split_lines (c ∷ line) ≡ [] ∷ split_lines line
unfolding split_lines
split_ended c line e = rw e refl

split_grown :
    (c : ℕ) (line : Bytes) → (c == 10) ≡ false → split_lines (c ∷ line) ≡ grow c (split_lines line)
unfolding split_lines
split_grown c line e = rw e refl

and_false : (a b : Bool) → b ≡ false → (a && b) ≡ false
and_false a b h = ground (arith, h)

trim_kept :
    (c : ℕ) (line : Bytes)
    → ((c == 10) && no_bytes (trim_newlines line)) ≡ false
    → trim_newlines (c ∷ line) ≡ c ∷ trim_newlines line
unfolding trim_newlines
trim_kept c line e = rw e refl

-- The one line of nothing is empty.
not_full : (S : List Bytes) → split_lines [] ≡ S → full S ≡ true → true ≡ false
unfolding split_lines no_bytes
not_full S e h = cc (ap full e, h)

trim_one : (c : ℕ) → split_lines (trim_newlines (c ∷ [])) ≡ drop_last_empty (split_lines (c ∷ []))
unfolding split_lines trim_newlines drop_last_empty no_bytes grow
trim_one c = elim (Bool-cases (c == 10)) [
  | inl newline ↦ rw newline refl
  | inr other ↦ rw (other, other) refl
]

-- A file whose lines after the first are not empty loses the same newline either way.
pub trim-lines :
    (c : ℕ) (body : Bytes)
    → rest_full (drop_last_empty (split_lines (c ∷ body))) ≡ true
    → split_lines (trim_newlines (c ∷ body)) ≡ drop_last_empty (split_lines (c ∷ body))
trim-lines c [] h = trim_one c
trim-lines c (d ∷ body) h = elim (Bool-cases (c == 10)) [
  | inl newline ↦
      let S : List Bytes = split_lines (d ∷ body) in
      let lines : drop_last_empty (split_lines (c ∷ d ∷ body)) ≡ [] ∷ drop_last_empty S =
        ap drop_last_empty (split_ended c (d ∷ body) newline)
        ∙ drop-ended S (split_lines-IsSome (d ∷ body)) in
      let rest : full (drop_last_empty S) ≡ true = sym (ap rest_full lines) ∙ h in
      let later = trim-lines d body (full-rest (drop_last_empty S) rest) in
      elim (Bool-cases (no_bytes (trim_newlines (d ∷ body)))) [
        | inl blank ↦ cc (
            not_full (drop_last_empty S)
              (ap split_lines (sym (no_bytes-nil (trim_newlines (d ∷ body)) blank)) ∙ later) rest)
        | inr kept ↦
            ap split_lines (
              trim_kept c (d ∷ body)
                (and_false (c == 10) (no_bytes (trim_newlines (d ∷ body))) kept))
            ∙ split_ended c (trim_newlines (d ∷ body)) newline
            ∙ ap (◌∷◌ []) later
            ∙ sym lines
      ]
  | inr other ↦
      let S : List Bytes = split_lines (d ∷ body) in
      let lines : drop_last_empty (split_lines (c ∷ d ∷ body)) ≡ grow c (drop_last_empty S) =
        ap drop_last_empty (split_grown c (d ∷ body) other)
        ∙ drop-grow c S (split_lines-AloneFull d body) in
      let rest : rest_full (drop_last_empty S) ≡ true =
        sym (rest_full-grow c (drop_last_empty S)) ∙ sym (ap rest_full lines) ∙ h in
      ap split_lines
        (trim_kept c (d ∷ body) (ap (λ b. b && no_bytes (trim_newlines (d ∷ body))) other))
      ∙ split_grown c (trim_newlines (d ∷ body)) other
      ∙ ap (grow c) (trim-lines d body rest)
      ∙ sym lines
]
