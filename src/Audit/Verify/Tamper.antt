-- ===== src/Audit/Verify/Tamper.antt =====
-- What the hash of the last line says of a signed journal: all of it.
pub mod Heads
pub mod Trim
use wlog.Base.{
  ℕ, suc, ◌≡◌, ◌⊎◌, refl, ap, ap₂, sym, subst, ◌∙◌, Bool, true, ◌||◌, Option, none, some, List, [],
  ◌∷◌, length, any, Bool-cases, inl, inr, arith,
}
use wlog.Audit.Bytes.{Bytes, same_bytes}
use wlog.Audit.Bytes.Writes.{slice, length-slice}
use wlog.Audit.Lines.{Crypto, Marker, Checked, fail, pass, check_line, no_bytes}
use wlog.Audit.Lines.Facts.{Linked, check_line-Linked, same_bytes_complete, stated_prev}
use wlog.Audit.Verify.{
  Walk, VerifyError, broken, intact, walk, verify, journal_lines, after_line, after_marker,
  check_marker,
}
use wlog.Audit.Lines.Fixed.{Clash, same_line}

abbrev pub holds : Bytes → List Bytes → Bool
holds line lines = any (same_bytes line) lines

-- Lines of two journals that clash.
pub record Collision (c : Crypto) (xs ys : List Bytes) : Type 0 where
  pub a : Bytes
  pub b : Bytes
  pub in_xs : holds a xs ≡ true
  pub in_ys : holds b ys ≡ true
  pub clash : Clash c a b

-- The lines of a journal from the last one back, and the hash of the last one.
data Chain (c : Crypto) (key : Bytes) : List Bytes → Bytes → Type 0 where
  start : Chain c key [] []
  next :
      {line prev hash : Bytes} {lines : List Bytes}
      → Linked c key line prev hash
      → Chain c key lines prev
      → Chain c key (line ∷ lines) hash

-- A hash has 64 bytes, so no line has the empty one of the start.
no_start : {c : Crypto} {P : Type 0} {key line prev : Bytes} → Linked c key line prev [] → P
no_start {line = line} x =
    let fits = x.hash_at.fits in
    let full : length (slice x.hash_place 64 line) ≡ 64 =
      length-slice x.hash_place 64 line (omega (arith, fits)) in
    let none_left : length (slice x.hash_place 64 line) ≡ 0 = ap length x.hash_at.is_value in
    ground (arith, full, none_left)

chains_same :
    {c : Crypto} {key : Bytes} {xs ys : List Bytes} {v w : Bytes}
    → Chain c key xs v
    → Chain c key ys w
    → v ≡ w
    → (xs ≡ ys) ⊎ Collision c xs ys
chains_same start start e = inl refl
chains_same {c} {key} start (next {line} {prev} y ls) e =
    no_start (subst (Linked c key line prev) (sym e) y)
chains_same {c} {key} (next {line} {prev} x ls) start e =
    no_start (subst (Linked c key line prev) e x)
chains_same {c} {key} (next {line} {prev} x ls) (next {line = other} y ms) e =
    elim (same_line (subst (Linked c key line prev) e x) y) [
      | inr clash ↦ inr (record {
        a = line;
        b = other;
        in_xs = rw (same_bytes_complete line) refl;
        in_ys = rw (same_bytes_complete other) refl;
        clash = clash;
      })
      | inl same ↦
          let follows = sym x.follows ∙ ap (λ l. stated_prev (c.parse l)) same ∙ y.follows in
          elim (chains_same ls ms follows) [
            | inr found ↦ inr (record {
              a = found.a;
              b = found.b;
              in_xs = rw found.in_xs (ground arith);
              in_ys = rw found.in_ys (ground arith);
              clash = found.clash;
            })
            | inl before ↦ inl (ap₂ (◌∷◌) same before)
          ]
    ]

-- Lines in front of others, the last one first.
onto : List Bytes → List Bytes → List Bytes
onto [] acc = acc
onto (line ∷ lines) acc = onto lines (line ∷ acc)

onto-onto : (xs ys : List Bytes) → onto (onto xs ys) [] ≡ onto ys xs
unfolding onto
onto-onto [] ys = refl
onto-onto (x ∷ xs) ys = onto-onto xs (x ∷ ys)

holds-onto :
    (line : Bytes) (xs acc : List Bytes)
    → holds line (onto xs acc) ≡ (holds line xs || holds line acc)
unfolding onto
holds-onto line [] acc = refl
holds-onto line (x ∷ xs) acc = rw (holds-onto line xs (x ∷ acc)) (ground arith)

holds-lines :
    (line : Bytes) (xs : List Bytes) → holds line (onto xs []) ≡ true → holds line xs ≡ true
holds-lines line xs h = let e = holds-onto line xs [] in ground (arith, e, h)

head_in : Walk → Bytes
head_in (broken e) = []
head_in (intact records hash) = hash

after_marker-goes_on :
    (rest : ℕ → Bytes → Walk) (records : ℕ) (hash : Bytes) (o : Option VerifyError) (r : ℕ)
    (w : Bytes)
    → after_marker rest records hash o ≡ intact r w
    → rest records hash ≡ intact r w
unfolding after_marker
after_marker-goes_on rest records hash none r w h = h
after_marker-goes_on rest records hash (some e) r w h = cc h

-- What the rest of a walk does with the lines that are left.
abbrev GoesOn : Crypto → Bytes → List Bytes → (ℕ → Bytes → Walk) → ℕ → Bytes → Type 0
GoesOn c key lines rest r w =
    (acc : List Bytes) (records : ℕ) (hash : Bytes)
    → Chain c key acc hash
    → rest records hash ≡ intact r w
    → Chain c key (onto lines acc) w

after_line-Chain :
    (c : Crypto) (key line : Bytes) (lines acc : List Bytes) (rest : ℕ → Bytes → Walk)
    (n records : ℕ) (prev : Bytes) (checked : Checked (Bytes × Option Marker)) {r : ℕ} {w : Bytes}
    → GoesOn c key lines rest r w
    → Chain c key acc prev
    → check_line c line prev (some key) ≡ checked
    → after_line c (some key) rest n records prev checked ≡ intact r w
    → Chain c key (onto lines (line ∷ acc)) w
unfolding after_line
after_line-Chain c key line lines acc rest n records prev (fail e) goes_on chain is_checked h = cc h
after_line-Chain c key line lines acc rest n records prev (pass (hash, none)) goes_on chain
      is_checked h =
    goes_on (line ∷ acc) (suc records) hash
      (next (check_line-Linked c key line prev hash none is_checked) chain) h
after_line-Chain c key line lines acc rest n records prev (pass (hash, some body)) {r} {w} goes_on
      chain is_checked h =
    goes_on (line ∷ acc) records hash
      (next (check_line-Linked c key line prev hash (some body) is_checked) chain)
      (after_marker-goes_on rest records hash (check_marker c body records prev (some key) n) r w h)

walk-Chain :
    (c : Crypto) (key : Bytes) (lines acc : List Bytes) (n records : ℕ) (prev : Bytes) {r : ℕ}
    {w : Bytes}
    → Chain c key acc prev
    → walk c (some key) lines n records prev ≡ intact r w
    → Chain c key (onto lines acc) w
unfolding walk onto head_in
walk-Chain c key [] acc n records prev chain h = subst (Chain c key acc) (ap head_in h) chain
walk-Chain c key (line ∷ lines) acc n records prev chain h =
    after_line-Chain c key line lines acc (walk c (some key) lines (suc n)) (suc n) records prev
      (check_line c line prev (some key))
      (λ acc' records' hash chain' h'. walk-Chain c key lines acc' (suc n) records' hash chain' h')
      chain refl h

walk-same :
    (c : Crypto) (key : Bytes) (xs ys : List Bytes) (r s : ℕ) (w : Bytes)
    → walk c (some key) xs 0 0 [] ≡ intact r w
    → walk c (some key) ys 0 0 [] ≡ intact s w
    → (xs ≡ ys) ⊎ Collision c xs ys
unfolding onto
walk-same c key xs ys r s w x y =
    elim (chains_same (walk-Chain c key xs [] 0 0 [] start x)
      (walk-Chain c key ys [] 0 0 [] start y) refl) [
        | inr found ↦ inr (record {
          a = found.a;
          b = found.b;
          in_xs = holds-lines found.a xs found.in_xs;
          in_ys = holds-lines found.b ys found.in_ys;
          clash = found.clash;
        })
        | inl same ↦ inl (sym (onto-onto xs []) ∙ ap (λ l. onto l []) same ∙ onto-onto ys [])
      ]

verify-walk :
    (c : Crypto) (key file : Bytes) {r : ℕ} {w : Bytes}
    → verify c (some key) (some file) ≡ intact r w
    → walk c (some key) (journal_lines file) 0 0 [] ≡ intact r w
unfolding verify
verify-walk c key file h = elim (Bool-cases (no_bytes file)) [
  | inl empty ↦ cc (rw empty at h)
  | inr full ↦ rw full at h
]

-- Two journals that Verify finds intact under the same key, and whose last lines have the same hash,
-- hold the same lines, or a line of the one and a line of the other cover different bytes with the
-- same SHA-256.
pub verify-same :
    (c : Crypto) (key a b : Bytes) (r s : ℕ) (w : Bytes)
    → verify c (some key) (some a) ≡ intact r w
    → verify c (some key) (some b) ≡ intact s w
    → (journal_lines a ≡ journal_lines b) ⊎ Collision c (journal_lines a) (journal_lines b)
verify-same c key a b r s w x y =
    walk-same c key (journal_lines a) (journal_lines b) r s w (verify-walk c key a x)
      (verify-walk c key b y)
