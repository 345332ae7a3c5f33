-- ===== src/Redact/Build.antt =====
-- How a redactor gets its denylist, in `build` of redact/redact.go and redact/match.go: keys that are
-- removed, and entries that are compiled. `strings.EqualFold` is a parameter.
pub mod Denies
use Prim.Native.Char.{Char, code}
use Prim.Native.String.{[] as blank, ◌∷◌ as prepend}
use wlog.Base.{
  ℕ, zero, suc, max, Bool, true, false, not, ◌&&◌, ◌||◌, Option, none, some, List, [], ◌∷◌, ◌++◌,
  String, str_eq, if◌then◌else◌, any, length, ◌==◌,
}
use wlog.Base.Strings.{split, all_chars, join}
use wlog.Redact.Tokenize.{tokenize, cut_key, join_tokens}
use wlog.Redact.Match.{Texts, SegMatcher, Denylist, glob, tokens, lower}

pub data BuildError : Type 0 where
  unknown_key : String → BuildError
  never_matches : String → BuildError
  bad_segment : String → BuildError
  bad_glob : String → BuildError

pub data Built (A : Type 0) : Type 0 where
  failed : BuildError → Built A
  built : A → Built A

-- The list without the first entry that folds to a key.
add_front : String → Option (List String) → Option (List String)
add_front k none = none
add_front k (some ks) = some (k ∷ ks)

remove_fold : (String → String → Bool) → String → List String → Option (List String)
unfolding add_front
remove_fold fold want [] = none
remove_fold fold want (k ∷ ks) =
    let rest = remove_fold fold want ks in if fold k want then some ks else add_front k rest

removed_from :
    (List String → Built (List String)) → String → Option (List String) → Built (List String)
removed_from rest key none = failed (unknown_key key)
removed_from rest key (some ks) = rest ks

-- `RemoveKeys`: a key that is not in the list is an error.
unfoldable pub remove_keys :
    (String → String → Bool) → List String → List String → Built (List String)
unfolding remove_fold removed_from
remove_keys fold [] keys = built keys
remove_keys fold (key ∷ removed) keys =
    removed_from (remove_keys fold removed) key (remove_fold fold key keys)

abbrev pub is_dot : Char → Bool
is_dot c = code c == 46

abbrev pub is_star : Char → Bool
is_star c = code c == 42

unfoldable pub has_char : (Char → Bool) → String → Bool
has_char p blank = false
has_char p (prepend c s) = p c || has_char p s

reserved_shape : List (String × String)
reserved_shape =
    ("http", "request_headers")
    ∷ ("http", "request_cookies")
    ∷ ("http", "request_query")
    ∷ ("http", "request_body")
    ∷ ("http", "response_headers")
    ∷ ("http", "response_body")
    ∷ ("http", "method")
    ∷ ("http", "path")
    ∷ ("http", "route")
    ∷ ("http", "status")
    ∷ ("http", "bytes_in")
    ∷ ("http", "bytes_out")
    ∷ ("http", "client_ip")
    ∷ ("http", "user_agent")
    ∷ ("http", "duration_ms")
    ∷ ("trace", "request_id")
    ∷ ("trace", "trace_id")
    ∷ ("trace", "span_id")
    ∷ ("trace", "parent_operation")
    ∷ ("audit", "action")
    ∷ ("audit", "actor")
    ∷ ("audit", "target")
    ∷ ("audit", "outcome")
    ∷ ("service", "name")
    ∷ ("service", "version")
    ∷ ("service", "env")
    ∷ ("faas", "name")
    ∷ ("faas", "request_id")
    ∷ ("llm", "request_model")
    ∷ ("llm", "calls")
    ∷ []

-- The second segment of a reserved group is a reserved field; what follows is the caller's.
valid_segments : Texts → List String → Bool
unfolding reserved_shape
valid_segments t [] = true
valid_segments t (group ∷ []) = true
valid_segments t (group ∷ name ∷ rest) =
    not (any (λ p. str_eq p.0 (lower t group)) reserved_shape)
    || any (λ p. str_eq p.0 (lower t group) && str_eq p.1 (lower t name)) reserved_shape

valid_path_entry : Texts → String → Bool
unfolding valid_segments split
valid_path_entry t entry = valid_segments t (split is_dot entry)

compiles : Option Bool → Bool
compiles none = false
compiles (some b) = true

valid_glob : Texts → String → Bool
unfolding compiles
valid_glob t pattern = compiles (t.path_match (lower t pattern) "")

new_seg_matcher : Texts → String → Option SegMatcher
unfolding valid_glob
new_seg_matcher t seg =
    if has_char is_star seg
    then (if valid_glob t seg then some (glob (lower t seg)) else none)
    else some (tokens (tokenize t.unicode seg))

and_then : Option SegMatcher → Option (List SegMatcher) → Option (List SegMatcher)
and_then none ms = none
and_then (some m) none = none
and_then (some m) (some ms) = some (m ∷ ms)

seg_matchers : Texts → List String → Option (List SegMatcher)
unfolding new_seg_matcher and_then
seg_matchers t [] = some []
seg_matchers t (seg ∷ segs) = and_then (new_seg_matcher t seg) (seg_matchers t segs)

with_path : Denylist → String → Option (List SegMatcher) → Built Denylist
with_path d k none = failed (bad_segment k)
with_path d k (some segs) = built (record d { paths = d.paths ++ segs ∷ [] })

add_path : Texts → Denylist → String → Built Denylist
unfolding valid_path_entry with_path seg_matchers
add_path t d k =
    if not (valid_path_entry t k)
    then failed (never_matches k)
    else with_path d k (seg_matchers t (split is_dot k))

-- The words of an entry joined with and without a space.
entries_of : List String → List String
entries_of words =
    if str_eq (join "" words) (join_tokens words)
    then join_tokens words ∷ []
    else join_tokens words ∷ join "" words ∷ []

add_words : Denylist → List String → Denylist
unfolding entries_of
add_words d words = record d {
  leaf_tokens = d.leaf_tokens ++ entries_of words;
  max_leaf_tokens = max d.max_leaf_tokens (length words);
}

add_entry : Texts → Denylist → String → Built Denylist
unfolding add_path add_words
add_entry t d k =
    if has_char is_dot k
    then add_path t d k
    else if has_char is_star k
    then (if valid_glob t k
        then built (record d { leaf_globs = d.leaf_globs ++ lower t k ∷ [] })
        else failed (bad_glob k))
    else built (add_words d (tokenize t.unicode (cut_key k)))

next_entry : (Denylist → Built Denylist) → Built Denylist → Built Denylist
next_entry rest (failed e) = failed e
next_entry rest (built d) = rest d

add_entries : Texts → List String → Denylist → Built Denylist
unfolding add_entry next_entry
add_entries t [] d = built d
add_entries t (k ∷ ks) d = next_entry (add_entries t ks) (add_entry t d k)

pub no_rules : Denylist
no_rules = record {
  leaf_tokens = [];
  max_leaf_tokens = 0;
  leaf_globs = [];
  paths = [];
  kept = "rpc.mcp.session" ∷ [];
}

-- A redactor without leaf entries looks at single words.
at_least_one : Built Denylist → Built Denylist
at_least_one (failed e) = failed e
at_least_one (built d) =
    built (record d { max_leaf_tokens = if d.max_leaf_tokens == 0 then 1 else d.max_leaf_tokens })

unfoldable pub compile : Texts → Built (List String) → Built Denylist
unfolding at_least_one add_entries no_rules
compile t (failed e) = failed e
compile t (built keys) = at_least_one (add_entries t keys no_rules)

-- The denylist of `build`: the keys less those that are removed.
unfoldable pub build_denylist :
    Texts → (String → String → Bool) → List String → List String → Built Denylist
unfolding compile remove_keys
build_denylist t fold keys removed = compile t (remove_keys fold removed keys)
