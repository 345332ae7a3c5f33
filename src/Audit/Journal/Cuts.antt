-- ===== src/Audit/Journal/Cuts.antt =====
-- splitTail of audit/journal.go: the lines that a file ends, and its tail.
use wlog.Base.{arith, all, ℕ, ◌≡◌, refl, ap, sym, ◌∙◌, Bool, true, false, List, [], ◌∷◌, ◌++◌, ◌==◌}
use wlog.Audit.Bytes.{Bytes, split_lines, grow}
use wlog.Audit.Lines.{no_bytes}
use wlog.Audit.Verify.Walks.{no_newline}
use wlog.Audit.Journal.{split_tail, add_by, add_byte}

unfoldable pub no_lines : List Bytes → Bool
no_lines [] = true
no_lines (l ∷ ls) = false

pub all_plain-append :
    (a b : Bytes)
    → all no_newline a ≡ true
    → all no_newline b ≡ true
    → all no_newline (a ++ b) ≡ true
all_plain-append [] b p q = q
all_plain-append (x ∷ a) b p q =
    let first : no_newline x ≡ true = ground (arith, p) in
    rw (first, all_plain-append a b (ground (arith, p)) q) refl

-- The lines that a file ends, with its tail apart.
pub record Cut (file body tail : Bytes) : Type 0 where
  pub lines : List Bytes
  pub of_body : split_lines body ≡ lines ++ [] ∷ []
  pub onward : (more : Bytes) → split_lines (body ++ more) ≡ lines ++ split_lines more
  pub one_line : all no_newline tail ≡ true
  pub no_body : no_lines lines ≡ no_bytes body

split_ended :
    (c : ℕ) (line : Bytes) → (c == 10) ≡ true → split_lines (c ∷ line) ≡ [] ∷ split_lines line
unfolding split_lines
split_ended c line e = rw e refl

split_grown :
    (c : ℕ) (line : Bytes) → (c == 10) ≡ false → split_lines (c ∷ line) ≡ grow c (split_lines line)
unfolding split_lines
split_grown c line e = rw e refl

Cut-ended :
    (c : ℕ) (file body tail : Bytes)
    → (c == 10) ≡ true
    → Cut file body tail
    → Cut (c ∷ file) (c ∷ body) tail
unfolding no_lines no_bytes
Cut-ended c file body tail e cut = record {
  lines = [] ∷ cut.lines;
  of_body = split_ended c body e ∙ ap (◌∷◌ []) cut.of_body;
  onward = λ more. split_ended c (body ++ more) e ∙ ap (◌∷◌ []) (cut.onward more);
  one_line = cut.one_line;
  no_body = refl;
}

Cut-grown :
    (c : ℕ) (file body tail : Bytes) (lines : List Bytes) (b : Bool)
    → (c == 10) ≡ false
    → no_bytes body ≡ b
    → no_lines lines ≡ b
    → split_lines body ≡ lines ++ [] ∷ []
    → ((more : Bytes) → split_lines (body ++ more) ≡ lines ++ split_lines more)
    → all no_newline tail ≡ true
    → Cut (c ∷ file) (add_by b false c body tail).0 (add_by b false c body tail).1
unfolding no_lines no_bytes add_by grow split_lines
Cut-grown c file body tail [] true e none_in none_before of_body onward one_line = record {
  lines = [];
  of_body = refl;
  onward = λ more. refl;
  one_line = rw (e, one_line) refl;
  no_body = refl;
}
Cut-grown c file body tail (l ∷ lines) true e none_in none_before of_body onward one_line =
    cc none_before
Cut-grown c file body tail [] false e none_in none_before of_body onward one_line = cc none_before
Cut-grown c file body tail (l ∷ lines) false e none_in none_before of_body onward one_line =
    record {
      lines = (c ∷ l) ∷ lines;
      of_body = split_grown c body e ∙ ap (grow c) of_body;
      onward = λ more. split_grown c (body ++ more) e ∙ ap (grow c) (onward more);
      one_line = one_line;
      no_body = refl;
    }

Cut-by :
    (c : ℕ) (file body tail : Bytes) (b e : Bool)
    → no_bytes body ≡ b
    → (c == 10) ≡ e
    → Cut file body tail
    → Cut (c ∷ file) (add_by b e c body tail).0 (add_by b e c body tail).1
unfolding add_by
Cut-by c file body tail true true eb ee cut = Cut-ended c file body tail ee cut
Cut-by c file body tail false true eb ee cut = Cut-ended c file body tail ee cut
Cut-by c file body tail true false eb ee cut =
    Cut-grown c file body tail cut.lines true ee eb (cut.no_body ∙ eb) cut.of_body cut.onward
      cut.one_line
Cut-by c file body tail false false eb ee cut =
    Cut-grown c file body tail cut.lines false ee eb (cut.no_body ∙ eb) cut.of_body cut.onward
      cut.one_line

pub no_bytes-nil : (line : Bytes) → no_bytes line ≡ true → line ≡ []
unfolding no_bytes
no_bytes-nil [] e = refl
no_bytes-nil (c ∷ line) e = cc e

add_by-parts :
    (c : ℕ) (body tail : Bytes) (b e : Bool)
    → no_bytes body ≡ b
    → (add_by b e c body tail).0 ++ (add_by b e c body tail).1 ≡ c ∷ (body ++ tail)
unfolding add_by
add_by-parts c body tail true true eb = refl
add_by-parts c body tail false true eb = refl
add_by-parts c body tail true false eb = ap (λ l. c ∷ (l ++ tail)) (sym (no_bytes-nil body eb))
add_by-parts c body tail false false eb = refl

pub split_tail-parts : (file : Bytes) → (split_tail file).0 ++ (split_tail file).1 ≡ file
unfolding split_tail add_byte
split_tail-parts [] = refl
split_tail-parts (c ∷ file) =
    add_by-parts c (split_tail file).0 (split_tail file).1 (no_bytes (split_tail file).0) (c == 10)
      refl
    ∙ ap (◌∷◌ c) (split_tail-parts file)

pub split_tail-Cut : (file : Bytes) → Cut file (split_tail file).0 (split_tail file).1
unfolding split_tail add_byte split_lines no_lines no_bytes
split_tail-Cut [] = record {
  lines = [];
  of_body = refl;
  onward = λ more. refl;
  one_line = refl;
  no_body = refl;
}
split_tail-Cut (c ∷ file) =
    Cut-by c file (split_tail file).0 (split_tail file).1 (no_bytes (split_tail file).0) (c == 10)
      refl refl (split_tail-Cut file)
