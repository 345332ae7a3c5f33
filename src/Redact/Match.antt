-- ===== src/Redact/Match.antt =====
-- redact/match.go: which keys an entry of the denylist matches. `path.Match` is a parameter; a pattern
-- that it refuses has no answer.
pub mod Runs
use wlog.Base.{
  ℕ, zero, suc, min, Bool, true, false, not, ◌&&◌, ◌||◌, Option, none, some, List, [], ◌∷◌, ◌++◌,
  map, String, str_eq, if◌then◌else◌, any, length, ◌==◌, leb,
}
use wlog.Base.Strings.{Unicode, map_chars, split, join}
use wlog.Redact.Tokenize.{tokenize, cut_key, join_tokens}

-- What is used of other packages: the tables of the characters and `path.Match`.
pub record Texts : Type 0 where
  pub unicode : Unicode
  pub path_match : String → String → Option Bool

pub data SegMatcher : Type 0 where
  glob : String → SegMatcher
  tokens : List String → SegMatcher

-- `strings.ToLower`
unfoldable pub lower : Texts → String → String
unfolding map_chars
lower t s = map_chars t.unicode.to_lower s

matched : Option Bool → Bool
matched none = false
matched (some b) = b

unfoldable pub glob_match : Texts → String → String → Bool
unfolding matched
glob_match t pattern s = matched (t.path_match pattern s)

-- Whether the tokens start with a run.
starts_with : List String → List String → Bool
starts_with hay [] = true
starts_with [] (tok ∷ needle) = false
starts_with (h ∷ hay) (tok ∷ needle) = str_eq h tok && starts_with hay needle

some_run : List String → List String → Bool
unfolding starts_with
some_run [] needle = starts_with [] needle
some_run (h ∷ hay) needle = starts_with (h ∷ hay) needle || some_run hay needle

no_tokens : List String → Bool
no_tokens [] = true
no_tokens (t ∷ ts) = false

unfoldable pub contains_run : List String → List String → Bool
unfolding some_run no_tokens
contains_run hay needle =
    if no_tokens needle || not (leb (length needle) (length hay))
    then false
    else some_run hay needle

unfoldable pub segment_matches : Texts → SegMatcher → String → Bool
segment_matches t (glob pattern) segment = glob_match t pattern (lower t segment)
segment_matches t (tokens needle) segment = contains_run (tokenize t.unicode segment) needle

-- `r.leafTokens[joined]`
unfoldable pub listed : String → List String → Bool
listed s entries = any (λ entry. str_eq entry s) entries

-- The runs that start at one token, of `limit` tokens more at most.
run_listed : List String → ℕ → List String → List String → Bool
run_listed entries zero run rest = false
run_listed entries (suc limit) run [] = false
run_listed entries (suc limit) run (tok ∷ rest) =
    let longer = run_listed entries limit (run ++ tok ∷ []) rest in
    if listed (join_tokens (run ++ tok ∷ [])) entries then true else longer

runs_listed : List String → ℕ → List String → Bool
unfolding run_listed
runs_listed entries limit [] = false
runs_listed entries limit (tok ∷ rest) =
    let later = runs_listed entries limit rest in
    if run_listed entries limit [] (tok ∷ rest) then true else later

-- A dotted entry against a path: as many segments, each of which matches.
segments_match : Texts → List SegMatcher → List String → Bool
segments_match t [] [] = true
segments_match t (m ∷ ms) (s ∷ path) = segment_matches t m s && segments_match t ms path
segments_match t _ _ = false

-- The rules that a redactor holds for keys.
pub record Denylist : Type 0 where
  pub leaf_tokens : List String
  pub max_leaf_tokens : ℕ
  pub leaf_globs : List String
  pub paths : List (List SegMatcher)
  pub kept : List String

unfoldable pub matches_key : Texts → Denylist → String → Bool
unfolding runs_listed tokenize cut_key
matches_key t d key = runs_listed d.leaf_tokens d.max_leaf_tokens (tokenize t.unicode (cut_key key))

unfoldable pub matches_leaf_glob : Texts → Denylist → String → Bool
matches_leaf_glob t d key = any (λ g. glob_match t g (lower t key)) d.leaf_globs

unfoldable pub matches_path : Texts → Denylist → List String → Bool
unfolding segments_match
matches_path t d path = any (λ entry. segments_match t entry path) d.paths

unfoldable pub keeps : Denylist → String → Bool
keeps d path = listed path d.kept

-- `Denies` of a top-level key, and `DeniesPath`.
pub denies : Texts → Denylist → String → Bool
unfolding keeps matches_key matches_leaf_glob
denies t d key = if keeps d key then false else (matches_key t d key || matches_leaf_glob t d key)

unfoldable pub denies_path : Texts → Denylist → List String → Bool
unfolding keeps matches_key matches_leaf_glob matches_path join
denies_path t d path =
    if keeps d (join "." path)
    then false
    else if matches_key t d (join "." path) || matches_leaf_glob t d (join "." path)
    then true
    else matches_path t d path
