-- ===== src/Audit/Verify/Tamper/Heads.antt =====
-- What VerifyHead of audit/verify.go says of a signed journal: the hash asked for fixes all of it.
use wlog.Base.{
  ℕ, ◌≡◌, ◌⊎◌, refl, ap, sym, subst, ◌∙◌, true, ◌&&◌, some, List, [], ◌∷◌, Bool-cases, inl, inr,
  arith,
}
use wlog.Audit.Bytes.{index_from, Bytes, split_lines, same_bytes}
use wlog.Audit.Lines.{
  value_after, missing, Crypto, Checked, fail, pass, chain_value, hash_field, no_bytes,
}
use wlog.Audit.Lines.Facts.{Field-chain_value, Linked, same_bytes_sound}
use wlog.Audit.Verify.{
  Walk, broken, intact, verify, journal_lines, drop_last_empty, trim_newlines, last_line, at_head,
  head_checked, verify_head,
}
use wlog.Audit.Verify.Tamper.{
  Collision, Chain, start, next, onto, walk-Chain, verify-walk, verify-same,
}
use wlog.Audit.Verify.Tamper.Trim.{is_full, full, full-rest, trim-lines}

-- The last line comes first in the chain, and no line of a chain is empty.
onto-last :
    (l : Bytes) (ls acc : List Bytes)
    → (rest : List Bytes) × (onto (l ∷ ls) acc ≡ last_line (l ∷ ls) ∷ rest)
unfolding onto last_line
onto-last l [] acc = (acc, refl)
onto-last l (k ∷ ls) acc = onto-last k ls (l ∷ acc)

full-onto : (xs acc : List Bytes) → full (onto xs acc) ≡ (full xs && full acc)
unfolding onto
full-onto [] acc = refl
full-onto (x ∷ xs) acc = rw (full-onto xs (x ∷ acc)) (ground arith)

Linked-is_full :
    {c : Crypto} {key line prev hash : Bytes} → Linked c key line prev hash → is_full line ≡ true
unfolding no_bytes
Linked-is_full {line = []} x = let fits = x.hash_at.fits in ground (arith, fits)
Linked-is_full {line = b ∷ line} x = refl

Chain-full : {c : Crypto} {key w : Bytes} {xs : List Bytes} → Chain c key xs w → full xs ≡ true
Chain-full start = refl
Chain-full (next x chain) = rw (Linked-is_full x, Chain-full chain) refl

-- The head of a chain is the hash that its first line names.
HashNamed : Bytes → Bytes → Type 0
HashNamed line w = (off : ℕ) × (chain_value line hash_field ≡ pass (w, off))

Chain-hash :
    {c : Crypto} {key w l : Bytes} {ls : List Bytes} → Chain c key (l ∷ ls) w → HashNamed l w
unfolding HashNamed
Chain-hash (next x chain) = (x.hash_place, Field-chain_value x.hash_at)

-- No line names no hash.
no_hash : (field : Bytes) → chain_value [] field ≡ fail (missing field)
unfolding chain_value value_after index_from
no_hash field = refl

-- The last line of what Verify walks is the last line of the file without its last newlines.
trim-journal_lines :
    (file : Bytes)
    → full (journal_lines file) ≡ true
    → last_line (split_lines (trim_newlines file)) ≡ last_line (journal_lines file)
unfolding journal_lines no_bytes trim_newlines last_line
trim-journal_lines [] h = refl
trim-journal_lines (b ∷ file) h =
    ap last_line (trim-lines b file (full-rest (drop_last_empty (split_lines (b ∷ file))) h))

value_in : Checked (Bytes × ℕ) → Bytes
value_in (fail e) = []
value_in (pass (v, off)) = v

last_hash :
    (c : Crypto) (key want w : Bytes) (lines : List Bytes)
    → Chain c key (onto lines []) w
    → HashNamed (last_line lines) want
    → w ≡ want
unfolding HashNamed last_line value_in
last_hash c key want w [] chain named = cc (no_hash hash_field, named.1)
last_hash c key want w (l ∷ ls) chain named =
    let (rest, comes_first) = onto-last l ls [] in
    let (off, e) = Chain-hash (subst (λ xs. Chain c key xs w) comes_first chain) in
    ap value_in (sym e ∙ named.1)

at_head-intact :
    (want : Bytes) (v : Walk) (k : Checked (Bytes × ℕ)) {r : ℕ} {w : Bytes}
    → at_head want v k ≡ intact r w
    → (v ≡ intact r w) × ((off : ℕ) × (k ≡ pass (want, off)))
unfolding at_head
at_head-intact want v (fail e) h = cc h
at_head-intact want v (pass (got, off)) h = elim (Bool-cases (same_bytes got want)) [
  | inl same ↦
      (rw same at h, (off, ap (λ g. Checked.pass (g, off)) (same_bytes_sound got want same)))
  | inr other ↦ cc (rw other at h)
]

head_checked-intact :
    (file want : Bytes) (v : Walk) {r : ℕ} {w : Bytes}
    → head_checked file want v ≡ intact r w
    → (v ≡ intact r w) × HashNamed (last_line (split_lines (trim_newlines file))) want
unfolding head_checked HashNamed
head_checked-intact file want (broken e) h = cc h
head_checked-intact file want (intact records hash) h =
    at_head-intact want (intact records hash)
      (chain_value (last_line (split_lines (trim_newlines file))) hash_field) h

-- What VerifyHead finds intact is what Verify finds so, and its last hash is the one asked for.
verify_head-verify :
    (c : Crypto) (key want file : Bytes) {r : ℕ} {w : Bytes}
    → verify_head c (some key) want file ≡ intact r w
    → verify c (some key) (some file) ≡ intact r want
unfolding verify_head
verify_head-verify c key want file {r} {w} h =
    let (walked, named) = head_checked-intact file want (verify c (some key) (some file)) h in
    let chain =
      walk-Chain c key (journal_lines file) [] 0 0 [] start (verify-walk c key file walked) in
    let all_full : full (journal_lines file) ≡ true =
      let e = full-onto (journal_lines file) [] in
      let f = Chain-full chain in ground (arith, e, f) in
    let fixed =
      last_hash c key want w (journal_lines file) chain
        (subst (λ l. HashNamed l want) (trim-journal_lines file all_full) named) in
    walked ∙ ap (intact r) fixed

-- Two journals that VerifyHead finds intact under the same key and for the same hash hold the same
-- lines, or a line of the one and a line of the other cover different bytes with the same SHA-256.
pub verify_head-same :
    (c : Crypto) (key want a b : Bytes) (r s : ℕ) (v w : Bytes)
    → verify_head c (some key) want a ≡ intact r v
    → verify_head c (some key) want b ≡ intact s w
    → (journal_lines a ≡ journal_lines b) ⊎ Collision c (journal_lines a) (journal_lines b)
verify_head-same c key want a b r s v w x y =
    verify-same c key a b r s want (verify_head-verify c key want a x)
      (verify_head-verify c key want b y)
