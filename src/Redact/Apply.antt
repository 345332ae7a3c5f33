-- ===== src/Redact/Apply.antt =====
-- `Redactor.Apply` of redact/redact.go: the walk of an event that masks it, and the value patterns of
-- patterns.go over one text. A regular expression is a parameter: what it finds in a text.
pub mod Secrecy
pub mod Depth
use Prim.Native.String.{len}
use wlog.Base.{
  ℕ, suc, ◌+◌, Bool, true, false, not, ◌&&◌, ◌||◌, Option, none, some, List, [], ◌∷◌, ◌++◌, map,
  String, str_eq, if◌then◌else◌, any, ltb, leb, ◌==◌,
}
use wlog.Base.Int.{ℤ}
use wlog.Base.Strings.{◌<>◌, is_blank, join}
use wlog.Value.{
  Value, Fields, Items, null, bool, str, int, go_int, uint, float, number, object, array, strings,
  string_map, other, nil, cons, end, field,
}
use wlog.Redact.Match.{Texts, Denylist, keeps, matches_key, matches_leaf_glob, matches_path}

pub record Match : Type 0 where
  pub path : String
  pub key : String
  pub value : String
  pub groups : List String

-- One match that `FindAllStringSubmatchIndex` reports: the text since the match before, and the match.
pub record Hit : Type 0 where
  pub before : String
  pub value : String
  pub groups : List String

-- A text as its matches and what follows the last of them.
abbrev pub Regex : Type 0
Regex = String → List Hit × String

-- A masker that panics has no answer; a pattern that a caller adds has a prefilter that lets all pass.
pub record Pattern : Type 0 where
  pub name : String
  pub regex : Regex
  pub masker : Match → Option String
  pub prefilter : String → Bool
  pub custom : Bool

pub record Redactor : Type 0 where
  pub disabled : Bool
  pub denylist : Denylist
  pub patterns : List Pattern
  pub mask_client_ip : Bool
  pub transforms : List (Fields → Fields)
  pub replacement : String
  pub replace_func : Option (String → Option String)
  pub max_depth : ℕ
  pub max_string_scan : ℕ

-- Go's decimal numbers, and the pattern that stands in for jwt on a stack.
pub record Library : Type 0 where
  pub texts : Texts
  pub format_int : ℤ → String
  pub format_uint : ℕ → String
  pub stack_jwt : Regex

-- A panic is recovered into the fallback.
or_else : String → Option String → String
or_else fallback none = fallback
or_else fallback (some s) = s

last_of : List String → String
last_of [] = ""
last_of (s ∷ []) = s
last_of (s ∷ t ∷ path) = last_of (t ∷ path)

masked_hits : (Match → Option String) → String → List String → List Hit → String → String
unfolding or_else last_of join
masked_hits masker fallback path [] rest = rest
masked_hits masker fallback path (h ∷ hits) rest =
    h.before
    <> (or_else fallback (
          masker (record {
            path = join "." path;
            key = last_of path;
            value = h.value;
            groups = h.groups;
          }))
        <> masked_hits masker fallback path hits rest)

apply_found : (Match → Option String) → String → List String → List Hit × String → String
unfolding masked_hits
apply_found masker fallback path (hits, rest) = masked_hits masker fallback path hits rest

apply_regex : String → Regex → List String → (Match → Option String) → String → String
unfolding apply_found
apply_regex s regex path masker fallback = apply_found masker fallback path (regex s)

identity_paths : List String
identity_paths =
    "event_id" ∷ "job.id" ∷ "trace.trace_id" ∷ "trace.span_id" ∷ "trace.parent_span_id"
    ∷ "trace.parent_event_id" ∷ []

is_client_ip : List String → Bool
is_client_ip (group ∷ name ∷ []) = str_eq group "http" && str_eq name "client_ip"
is_client_ip _ = false

is_stack : List String → Bool
is_stack (group ∷ name ∷ []) =
    (str_eq group "error" || str_eq group "errors") && str_eq name "stack"
is_stack _ = false

is_identity : List String → Bool
unfolding identity_paths
is_identity [] = false
is_identity (k ∷ path) = any (λ p. str_eq p (join "." (k ∷ path))) identity_paths

regex_for : Library → List String → Pattern → Regex
unfolding is_stack
regex_for l path p =
    if is_stack path && (str_eq p.name "jwt" && not p.custom) then l.stack_jwt else p.regex

apply_pattern : Library → Redactor → List String → Pattern → String → String
unfolding is_client_ip regex_for apply_regex
apply_pattern l r path p s =
    if str_eq p.name "ipv4" && (is_client_ip path && not r.mask_client_ip)
    then s
    else if not (p.prefilter s)
    then s
    else apply_regex s (regex_for l path p) path p.masker r.replacement

apply_each : Library → Redactor → List String → List Pattern → String → String
unfolding apply_pattern
apply_each l r path [] s = s
apply_each l r path (p ∷ patterns) s = apply_each l r path patterns (apply_pattern l r path p s)

unfoldable pub apply_patterns : Library → Redactor → List String → String → String
unfolding apply_each is_identity
apply_patterns l r path s = if is_identity path then s else apply_each l r path r.patterns s

safe_replace : Redactor → (String → Option String) → String → String
unfolding or_else
safe_replace r f s = or_else r.replacement (f s)

-- `maskValue`, by the ReplaceFunc and the value.
mask_with : Redactor → Option (String → Option String) → Value → Value
unfolding safe_replace
mask_with r (some f) (str raw) = str (safe_replace r f raw)
mask_with r _ v = str r.replacement

unfoldable pub mask_value : Redactor → Value → Value
unfolding mask_with
mask_value r v = mask_with r r.replace_func v

text_with : Redactor → Option (String → Option String) → String
text_with r (some f) = safe_replace r f ""
text_with r none = if is_blank r.replacement then "[REDACTED]" else r.replacement

unfoldable pub replacement_text : Redactor → String
unfolding text_with safe_replace
replacement_text r = text_with r r.replace_func

unfoldable pub apply_integer : Library → Redactor → String → Value → Value
apply_integer l r text original =
    if ltb (len text) 13
    then original
    else if str_eq (apply_patterns l r [] text) text
    then original
    else str (apply_patterns l r [] text)

apply_text : Library → Redactor → List String → String → Value
apply_text l r path x =
    if ltb r.max_string_scan (len x)
    then str "[REDACTED:TOO_LARGE]"
    else str (apply_patterns l r path x)

-- A `map[string]string` comes back as an object: each text is looked at by the value patterns.
apply_texts : Library → Redactor → List String → List (String × String) → Fields
unfolding apply_text
apply_texts l r path [] = end
apply_texts l r path ((key, item) ∷ rest) =
    field key (apply_text l r (path ++ key ∷ []) item) (apply_texts l r path rest)

-- Whether the value of a key is masked as a whole.
unfoldable pub denied : Library → Redactor → List String → String → Bool
denied l r path key =
    if keeps r.denylist (join "." path)
    then false
    else matches_key l.texts r.denylist key
      || (matches_leaf_glob l.texts r.denylist key || matches_path l.texts r.denylist path)

unfoldable mutual
  unfolding denied mask_value replacement_text apply_integer apply_text apply_texts

  -- The path is that of the map, and the depth its own.
  pub apply_map : Library → Redactor → List String → ℕ → Fields → Fields
  apply_map l r path depth end = end
  apply_map l r path depth (field k v m) =
      field k
        (if denied l r (path ++ k ∷ []) k
          then mask_value r v
          else apply_value l r (path ++ k ∷ []) depth v)
        (apply_map l r path depth m)

  pub apply_value : Library → Redactor → List String → ℕ → Value → Value
  apply_value l r path depth (object m) =
      let inner = apply_map l r path (suc depth) m in
      if ltb r.max_depth (depth + 1) then str "[REDACTED:DEPTH]" else object inner
  apply_value l r path depth (strings xs) = strings (map (apply_patterns l r path) xs)
  apply_value l r path depth (string_map m) = object (apply_texts l r path m)
  apply_value l r path depth (array xs) =
      let inner = apply_items l r path (suc depth) xs in
      if ltb r.max_depth (depth + 1) then str "[REDACTED:DEPTH]" else array inner
  apply_value l r path depth (str x) = apply_text l r path x
  apply_value l r path depth (int n) = apply_integer l r (l.format_int n) (int n)
  apply_value l r path depth (go_int n) = apply_integer l r (l.format_int n) (go_int n)
  apply_value l r path depth (uint n) = apply_integer l r (l.format_uint n) (uint n)
  apply_value l r path depth (number s) = apply_integer l r s (number s)
  apply_value l r path depth null = null
  apply_value l r path depth (bool b) = bool b
  apply_value l r path depth (float f) = float f
  apply_value l r path depth (other n) = str (replacement_text r)

  pub apply_items : Library → Redactor → List String → ℕ → Items → Items
  apply_items l r path depth nil = nil
  apply_items l r path depth (cons v xs) =
      cons (apply_value l r path depth v) (apply_items l r path depth xs)

-- Each transform leaves the event as it made it, also where it panics.
unfoldable pub run_transforms : List (Fields → Fields) → Fields → Fields
run_transforms [] event = event
run_transforms (t ∷ ts) event = run_transforms ts (t event)

unfoldable pub apply : Library → Redactor → Fields → Fields
unfolding run_transforms
apply l r event =
    if r.disabled then event else apply_map l r [] 0 (run_transforms r.transforms event)
