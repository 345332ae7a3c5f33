-- ===== src/Audit/Verify/Walks.antt =====
-- A walk over one line more, and the lines of a file that is written line by line.
use wlog.Base.{
  ℕ, suc, ◌≡◌, refl, ap, ap₂, sym, ◌∙◌, Bool, true, false, not, Option, none, some, List, [], ◌∷◌,
  ◌++◌, append_assoc, ◌==◌, all, arith, ==_iff,
}
use wlog.Base.Int.{pos}
use wlog.Audit.Bytes.{Bytes, split_lines, grow}
use wlog.Audit.Lines.{Crypto, Marker, Checked, fail, pass, check_line, no_bytes}
use wlog.Audit.Lines.Facts.{same_bytes_complete}
use wlog.Audit.Verify.{
  Walk, VerifyError, broken, intact, walk, journal_lines, drop_last_empty, check_marker, after_line,
  after_marker, same_count, names_key,
}

abbrev pub no_newline : ℕ → Bool
no_newline c = not (c == 10)

-- The bytes of lines, each with its newline.
unfoldable pub unlines : List Bytes → Bytes
unlines [] = []
unlines (l ∷ ls) = l ++ (10 ∷ unlines ls)

pub split_lines-line :
    (l s : Bytes) → all no_newline l ≡ true → split_lines (l ++ (10 ∷ s)) ≡ l ∷ split_lines s
unfolding split_lines grow
split_lines-line [] s h = refl
split_lines-line (c ∷ l) s h =
    let other : (c == 10) ≡ false = ground (arith, h) in
    rw other (ap (grow c) (split_lines-line l s (ground (arith, h))))

abbrev pub all_lines : List Bytes → Bool
all_lines ls = all (all no_newline) ls

split_lines-unlines :
    (ls : List Bytes) → all_lines ls ≡ true → split_lines (unlines ls) ≡ ls ++ [] ∷ []
unfolding split_lines unlines
split_lines-unlines [] h = refl
split_lines-unlines (l ∷ ls) h =
    split_lines-line l (unlines ls) (ground (arith, h))
    ∙ ap (◌∷◌ l) (split_lines-unlines ls (ground (arith, h)))

drop_last_empty-ended : (ls : List Bytes) → drop_last_empty (ls ++ [] ∷ []) ≡ ls
unfolding drop_last_empty no_bytes
drop_last_empty-ended [] = refl
drop_last_empty-ended (l ∷ []) = refl
drop_last_empty-ended (l ∷ k ∷ ls) = ap (◌∷◌ l) (drop_last_empty-ended (k ∷ ls))

pub unlines_append :
    (ls : List Bytes) (l : Bytes) → unlines (ls ++ l ∷ []) ≡ unlines ls ++ (l ++ 10 ∷ [])
unfolding unlines
unlines_append [] l = refl
unlines_append (k ∷ ls) l =
    ap (λ x. k ++ (10 ∷ x)) (unlines_append ls l)
    ∙ sym (append_assoc k (10 ∷ unlines ls) (l ++ 10 ∷ []))

pub all_lines_append :
    (ls : List Bytes) (l : Bytes)
    → all_lines ls ≡ true
    → all no_newline l ≡ true
    → all_lines (ls ++ l ∷ []) ≡ true
all_lines_append [] l h e = rw e refl
all_lines_append (k ∷ ls) l h e =
    rw (all_lines_append ls l (ground (arith, h)) e) (ground (arith, h))

pub journal_lines-unlines :
    (ls : List Bytes) → all_lines ls ≡ true → journal_lines (unlines ls) ≡ ls
unfolding journal_lines
journal_lines-unlines ls h =
    ap drop_last_empty (split_lines-unlines ls h) ∙ drop_last_empty-ended ls

count_in : Walk → ℕ
count_in (broken e) = 0
count_in (intact records hash) = records

head_in : Walk → Bytes
head_in (broken e) = []
head_in (intact records hash) = hash

module _ (c : Crypto) (key : Option Bytes) (l p w : Bytes) (r s : ℕ) where
  -- What the walk makes of the line after others.
  abbrev Goes : Type 0
  Goes = (n : ℕ) → after_line c key intact n r p (check_line c l p key) ≡ intact s w

  after_marker-append :
      (rest longer : ℕ → Bytes → Walk) (q : ℕ) (hash : Bytes) (o : Option VerifyError)
      → (rest q hash ≡ intact r p → longer q hash ≡ intact s w)
      → after_marker rest q hash o ≡ intact r p
      → after_marker longer q hash o ≡ intact s w
  unfolding after_marker
  after_marker-append rest longer q hash none more h = more h
  after_marker-append rest longer q hash (some e) more h = cc h

  after_line-append :
      (rest longer : ℕ → Bytes → Walk) (n q : ℕ) (o : Bytes)
      (checked : Checked (Bytes × Option Marker))
      → ((k : ℕ) (hash : Bytes) → rest k hash ≡ intact r p → longer k hash ≡ intact s w)
      → after_line c key rest n q o checked ≡ intact r p
      → after_line c key longer n q o checked ≡ intact s w
  unfolding after_line
  after_line-append rest longer n q o (fail e) more h = cc h
  after_line-append rest longer n q o (pass (hash, none)) more h = more (suc q) hash h
  after_line-append rest longer n q o (pass (hash, some m)) more h =
      after_marker-append rest longer q hash (check_marker c m q o key n) (more q hash) h

  walk-append :
      (ls : List Bytes) (n q : ℕ) (o : Bytes)
      → Goes
      → walk c key ls n q o ≡ intact r p
      → walk c key (ls ++ l ∷ []) n q o ≡ intact s w
  unfolding walk count_in head_in
  walk-append [] n q o goes h =
      ap₂ (λ k x. after_line c key intact (suc n) k x (check_line c l x key)) (ap count_in h)
        (ap head_in h)
      ∙ goes (suc n)
  walk-append (k ∷ ls) n q o goes h =
      after_line-append (walk c key ls (suc n)) (walk c key (ls ++ l ∷ []) (suc n)) (suc n) q o
        (check_line c k o key) (λ x hash later. walk-append ls (suc n) x hash goes later) h

-- One record more, and one marker more that states the records and the head so far.
pub walk-record :
    (c : Crypto) (key : Option Bytes) (ls : List Bytes) (l p w : Bytes) (r : ℕ)
    → check_line c l p key ≡ pass (w, none)
    → walk c key ls 0 0 [] ≡ intact r p
    → walk c key (ls ++ l ∷ []) 0 0 [] ≡ intact (suc r) w
unfolding after_line
walk-record c key ls l p w r passes h =
    walk-append c key l p w r (suc r) ls 0 0 [] (λ n. ap (after_line c key intact n r p) passes) h

pub walk-marker :
    (c : Crypto) (ls : List Bytes) (l p w : Bytes) (r : ℕ)
    → check_line c l p none
      ≡ pass (w, some (record { count = some (pos r); head = some p; key_id = none }))
    → walk c none ls 0 0 [] ≡ intact r p
    → walk c none (ls ++ l ∷ []) 0 0 [] ≡ intact r w
unfolding after_line after_marker check_marker same_count names_key
walk-marker c ls l p w r passes h =
    walk-append c none l p w r r ls 0 0 []
      (λ n.
        ap (after_line c none intact n r p) passes
        ∙ (let same : (r == r) ≡ true = (==_iff r r).1 refl in
            rw (same, same_bytes_complete p) refl))
      h
