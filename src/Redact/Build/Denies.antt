-- ===== src/Redact/Build/Denies.antt =====
-- Every word entry that a denylist is built from is denied in the keys that hold it.
use wlog.Base.{
  ◌≤◌, ◌<◌, ◌≡◌, refl, ap, sym, subst, ◌∙◌, Bool, true, false, not, ◌||◌, Option, none, some, List,
  [], ◌∷◌, ◌++◌, String, str_eq, eq_iff, if◌then◌else◌, any, length, Bool-cases, inl, inr, arith,
}
use wlog.Base.Strings.{split, join}
use wlog.Redact.Tokenize.{tokenize, cut_key, join_tokens}
use wlog.Redact.Match.{Texts, SegMatcher, Denylist, listed, matches_key}
use wlog.Redact.Match.Runs.{matches_key_iff}
use wlog.Redact.Build.{
  Built, failed, built, remove_keys, is_dot, is_star, has_char, with_path, add_path,
  valid_path_entry, seg_matchers, entries_of, add_words, add_entry, valid_glob, next_entry,
  add_entries, no_rules, at_least_one, compile, build_denylist,
}

listed_append :
    (s : String) (xs ys : List String) → listed s (xs ++ ys) ≡ (listed s xs || listed s ys)
unfolding listed
listed_append s [] ys = refl
listed_append s (x ∷ xs) ys = rw (listed_append s xs ys) (ground arith)

-- The words make an entry, and a run of them is looked at.
record Knows (d : Denylist) (words : List String) : Type 0 where
  is_listed : listed (join_tokens words) d.leaf_tokens ≡ true
  in_reach : length words ≤ d.max_leaf_tokens

denylist_of : Denylist → Built Denylist → Denylist
denylist_of d (failed e) = d
denylist_of d (built e) = e

add_words-Knows :
    (d : Denylist) (words others : List String) → Knows d words → Knows (add_words d others) words
unfolding add_words
add_words-Knows d words others k =
    let reach = k.in_reach in
    record {
      is_listed =
          rw (listed_append (join_tokens words) d.leaf_tokens (entries_of others), k.is_listed)
            refl;
      in_reach = omega (arith, reach);
    }

entries_of_self : (words : List String) → listed (join_tokens words) (entries_of words) ≡ true
unfolding entries_of listed
entries_of_self words =
    let self : str_eq (join_tokens words) (join_tokens words) ≡ true =
      (eq_iff (join_tokens words) (join_tokens words)).1 refl in
    elim (str_eq (join "" words) (join_tokens words))
      as (λ b.
        any (λ entry. str_eq entry (join_tokens words))
          (if b then join_tokens words ∷ [] else join_tokens words ∷ join "" words ∷ [])
        ≡ true) [ true ↦ rw self refl | false ↦ rw self refl ]

add_words_self : (d : Denylist) (words : List String) → Knows (add_words d words) words
unfolding add_words
add_words_self d words = record {
  is_listed =
      rw (listed_append (join_tokens words) d.leaf_tokens (entries_of words), entries_of_self words)
        (ground arith);
  in_reach = omega arith;
}

module _ (t : Texts) where
  with_path-Knows :
      (d e : Denylist) (k : String) (ms : Option (List SegMatcher)) (words : List String)
      → with_path d k ms ≡ built e
      → Knows d words
      → Knows e words
  unfolding with_path denylist_of
  with_path-Knows d e k none words h known = cc h
  with_path-Knows d e k (some segs) words h known =
      subst (λ x. Knows x words) (ap (denylist_of d) h)
        (record { is_listed = known.is_listed; in_reach = known.in_reach })

  add_entry-Knows :
      (d e : Denylist) (k : String) (words : List String)
      → add_entry t d k ≡ built e
      → Knows d words
      → Knows e words
  unfolding add_entry add_path denylist_of
  add_entry-Knows d e k words h known = elim (Bool-cases (has_char is_dot k)) [
    | inl dot ↦ elim (Bool-cases (not (valid_path_entry t k))) [
      | inl wrong ↦ cc (rw (dot, wrong) at h)
      | inr right ↦
          with_path-Knows d e k (seg_matchers t (split is_dot k)) words (rw (dot, right) at h) known
    ]
    | inr no_dot ↦ elim (Bool-cases (has_char is_star k)) [
      | inl star ↦ elim (Bool-cases (valid_glob t k)) [
        | inl right ↦
            subst (λ x. Knows x words) (ap (denylist_of d) (rw (no_dot, star, right) at h))
              (record { is_listed = known.is_listed; in_reach = known.in_reach })
        | inr wrong ↦ cc (rw (no_dot, star, wrong) at h)
      ]
      | inr no_star ↦
          subst (λ x. Knows x words) (ap (denylist_of d) (rw (no_dot, no_star) at h))
            (add_words-Knows d words (tokenize t.unicode (cut_key k)) known)
    ]
  ]

  add_entry_self :
      (d e : Denylist) (k : String)
      → has_char is_dot k ≡ false
      → has_char is_star k ≡ false
      → add_entry t d k ≡ built e
      → Knows e (tokenize t.unicode (cut_key k))
  unfolding add_entry denylist_of
  add_entry_self d e k dot star h =
      subst (λ x. Knows x (tokenize t.unicode (cut_key k)))
        (ap (denylist_of d) (rw (dot, star) at h))
        (add_words_self d (tokenize t.unicode (cut_key k)))

  -- The denylist between two entries.
  next_entry-goes_on :
      (rest : Denylist → Built Denylist) (b : Built Denylist) (e : Denylist)
      → next_entry rest b ≡ built e
      → (c : Denylist) × (b ≡ built c) × (rest c ≡ built e)
  unfolding next_entry
  next_entry-goes_on rest (failed x) e h = cc h
  next_entry-goes_on rest (built c) e h = (c, refl, h)

  add_entries-Knows :
      (ks words : List String) (d e : Denylist)
      → add_entries t ks d ≡ built e
      → Knows d words
      → Knows e words
  unfolding add_entries denylist_of
  add_entries-Knows [] words d e h known = subst (λ x. Knows x words) (ap (denylist_of d) h) known
  add_entries-Knows (k ∷ ks) words d e h known =
      let between = next_entry-goes_on (add_entries t ks) (add_entry t d k) e h in
      add_entries-Knows ks words between.0 e between.2
        (add_entry-Knows d between.0 k words between.1 known)

  add_entries-of :
      (before after : List String) (k : String) (d e : Denylist)
      → has_char is_dot k ≡ false
      → has_char is_star k ≡ false
      → add_entries t (before ++ (k ∷ after)) d ≡ built e
      → Knows e (tokenize t.unicode (cut_key k))
  unfolding add_entries
  add_entries-of [] after k d e dot star h =
      let between = next_entry-goes_on (add_entries t after) (add_entry t d k) e h in
      add_entries-Knows after (tokenize t.unicode (cut_key k)) between.0 e between.2
        (add_entry_self d between.0 k dot star between.1)
  add_entries-of (b ∷ before) after k d e dot star h =
      let between =
        next_entry-goes_on (add_entries t (before ++ (k ∷ after))) (add_entry t d b) e h in
      add_entries-of before after k between.0 e dot star between.2

  at_least_one-Knows :
      (words : List String) (b : Built Denylist) (e : Denylist)
      → ((c : Denylist) → b ≡ built c → Knows c words)
      → at_least_one b ≡ built e
      → Knows e words
  unfolding at_least_one denylist_of
  at_least_one-Knows words (failed x) e known h = cc h
  at_least_one-Knows words (built c) e known h =
      let reach = (known c refl).in_reach in
      subst (λ x. Knows x words) (ap (denylist_of c) h)
        (record { is_listed = (known c refl).is_listed; in_reach = ground (arith, reach) })

-- A key whose words hold, one after the other, the words of an entry that stays in the list when the
-- keys to remove are taken out is matched by the denylist that is built. The entry has no dot and no
-- star and at least one word; the words are those of the first 256 bytes of the key and of the entry.
pub build_denylist-matches_key :
    (t : Texts) (fold : String → String → Bool) (keys removed before after : List String)
    (entry : String) (d : Denylist) (key : String) (pre post : List String)
    → remove_keys fold removed keys ≡ built (before ++ (entry ∷ after))
    → has_char is_dot entry ≡ false
    → has_char is_star entry ≡ false
    → build_denylist t fold keys removed ≡ built d
    → 0 < length (tokenize t.unicode (cut_key entry))
    → tokenize t.unicode (cut_key key) ≡ pre ++ (tokenize t.unicode (cut_key entry) ++ post)
    → matches_key t d key ≡ true
unfolding build_denylist compile
build_denylist-matches_key t fold keys removed before after entry d key pre post left dot star h
      full words =
    let knows : Knows d (tokenize t.unicode (cut_key entry)) =
      at_least_one-Knows t (tokenize t.unicode (cut_key entry))
        (add_entries t (before ++ (entry ∷ after)) no_rules) d
        (λ c of. add_entries-of t before after entry no_rules c dot star of)
        (sym (ap (compile t) left) ∙ h) in
    (matches_key_iff t d key).1 (record {
      before = pre;
      run = tokenize t.unicode (cut_key entry);
      after = post;
      parts = words;
      is_some = full;
      within = knows.in_reach;
      is_listed = knows.is_listed;
    })
