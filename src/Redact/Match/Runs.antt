-- ===== src/Redact/Match/Runs.antt =====
-- What the matching of words decides: that a run of the tokens of a key is an entry.
use wlog.Base.{
  ℕ, zero, suc, ◌≤◌, ◌<◌, ◌≡◌, refl, sym, ap, subst, ◌↔◌, true, List, [], ◌∷◌, ◌++◌, append_assoc,
  String, length, Bool-cases, inl, inr, arith,
}
use wlog.Redact.Tokenize.{tokenize, cut_key, join_tokens}
use wlog.Redact.Match.{Texts, Denylist, listed, run_listed, runs_listed, matches_key}

-- A run of `tokens` of at most `limit` words that is an entry, between the words before and after it.
pub record Run (tokens : List String) (limit : ℕ) (entries : List String) : Type 0 where
  pub before : List String
  pub run : List String
  pub after : List String
  pub parts : tokens ≡ before ++ (run ++ after)
  pub is_some : 0 < length run
  pub within : length run ≤ limit
  pub is_listed : listed (join_tokens run) entries ≡ true

run_listed-finds :
    (entries : List String) (limit : ℕ) (acc rest : List String)
    → run_listed entries limit acc rest ≡ true
    → (run : List String) × (after : List String) × (rest ≡ run ++ after)
      × (0 < length run)
      × (length run ≤ limit)
      × (listed (join_tokens (acc ++ run)) entries ≡ true)
unfolding run_listed
run_listed-finds entries zero acc rest h = cc h
run_listed-finds entries (suc limit) acc [] h = cc h
run_listed-finds entries (suc limit) acc (tok ∷ rest) h =
    elim (Bool-cases (listed (join_tokens (acc ++ tok ∷ [])) entries)) [
      | inl here ↦ (tok ∷ [], rest, refl, omega arith, omega arith, here)
      | inr missing ↦
          let more = run_listed-finds entries limit (acc ++ tok ∷ []) rest (rw missing at h) in
          (
            tok ∷ more.0,
            more.1,
            ap (◌∷◌ tok) more.2,
            omega arith,
            omega (arith, more.4),
            subst (λ l. listed (join_tokens l) entries ≡ true) (append_assoc acc (tok ∷ []) more.0)
                more.5,
          )
    ]

run_listed_complete :
    (entries : List String) (limit : ℕ) (acc run after : List String)
    → 0 < length run
    → length run ≤ limit
    → listed (join_tokens (acc ++ run)) entries ≡ true
    → run_listed entries limit acc (run ++ after) ≡ true
unfolding run_listed
run_listed_complete entries limit acc [] after some bound h = ground (arith, some)
run_listed_complete entries zero acc (tok ∷ run) after some bound h = ground (arith, bound)
run_listed_complete entries (suc limit) acc (tok ∷ []) after some bound h = rw h refl
run_listed_complete entries (suc limit) acc (tok ∷ t ∷ run) after some bound h =
    elim (Bool-cases (listed (join_tokens (acc ++ tok ∷ [])) entries)) [
      | inl here ↦ rw here refl
      | inr missing ↦ rw missing (
          run_listed_complete entries limit (acc ++ tok ∷ []) (t ∷ run) after (omega arith)
            (omega arith)
            (subst (λ l. listed (join_tokens l) entries ≡ true)
              (sym (append_assoc acc (tok ∷ []) (t ∷ run))) h))
    ]

Run-after :
    {tokens entries : List String} {limit : ℕ} (tok : String)
    → Run tokens limit entries
    → Run (tok ∷ tokens) limit entries
Run-after tok r = record {
  before = tok ∷ r.before;
  run = r.run;
  after = r.after;
  parts = ap (◌∷◌ tok) r.parts;
  is_some = r.is_some;
  within = r.within;
  is_listed = r.is_listed;
}

runs_listed-finds :
    (entries : List String) (limit : ℕ) (tokens : List String)
    → runs_listed entries limit tokens ≡ true
    → Run tokens limit entries
unfolding runs_listed
runs_listed-finds entries limit [] h = cc h
runs_listed-finds entries limit (tok ∷ rest) h =
    elim (Bool-cases (run_listed entries limit [] (tok ∷ rest))) [
      | inl here ↦
          let found = run_listed-finds entries limit [] (tok ∷ rest) here in
          record {
            before = [];
            run = found.0;
            after = found.1;
            parts = found.2;
            is_some = found.3;
            within = found.4;
            is_listed = found.5;
          }
      | inr missing ↦ Run-after tok (runs_listed-finds entries limit rest (rw missing at h))
    ]

runs_listed-here :
    (entries : List String) (limit : ℕ) (tokens : List String)
    → run_listed entries limit [] tokens ≡ true
    → runs_listed entries limit tokens ≡ true
unfolding runs_listed run_listed
runs_listed-here entries zero [] h = cc h
runs_listed-here entries (suc limit) [] h = cc h
runs_listed-here entries limit (tok ∷ rest) h = rw h refl

runs_listed-later :
    (entries : List String) (limit : ℕ) (before tokens : List String)
    → runs_listed entries limit tokens ≡ true
    → runs_listed entries limit (before ++ tokens) ≡ true
unfolding runs_listed
runs_listed-later entries limit [] tokens h = h
runs_listed-later entries limit (tok ∷ before) tokens h =
    elim (Bool-cases (run_listed entries limit [] (tok ∷ before ++ tokens))) [
      | inl here ↦ rw here refl
      | inr missing ↦ rw (missing, runs_listed-later entries limit before tokens h) refl
    ]

runs_listed_complete :
    (entries : List String) (limit : ℕ) (tokens : List String)
    → Run tokens limit entries
    → runs_listed entries limit tokens ≡ true
runs_listed_complete entries limit tokens r = rw r.parts (
    runs_listed-later entries limit r.before (r.run ++ r.after) (
      runs_listed-here entries limit (r.run ++ r.after)
        (run_listed_complete entries limit [] r.run r.after r.is_some r.within r.is_listed)))

-- A key matches a leaf entry exactly when some words that follow one another in it, no more than
-- the longest entry has, make up an entry of the denylist when they are joined by a space. The words
-- are those of the first 256 bytes of the key.
pub matches_key_iff :
    (t : Texts) (d : Denylist) (key : String)
    → (matches_key t d key ≡ true)
      ↔ Run (tokenize t.unicode (cut_key key)) d.max_leaf_tokens d.leaf_tokens
unfolding matches_key
matches_key_iff t d key = (
  runs_listed-finds d.leaf_tokens d.max_leaf_tokens (tokenize t.unicode (cut_key key)),
  runs_listed_complete d.leaf_tokens d.max_leaf_tokens (tokenize t.unicode (cut_key key)),
)
