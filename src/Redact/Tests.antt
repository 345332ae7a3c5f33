-- ===== src/Redact/Tests.antt =====
-- A redactor of two entries, and the theorems applied to it.
use Prim.Native.Char.{code}
use wlog.Base.{
  length, ◌<◌, ◌++◌, ℕ, suc, ◌+◌, ◌≤◌, ◌≡◌, refl, Bool, true, false, ◌&&◌, Option, none, some, List,
  [], ◌∷◌, String, str_eq, leb, if◌then◌else◌, arith, ◌↔◌,
}
use wlog.Base.Strings.{Unicode}
use wlog.Value.{Fields, end, field, str, object, string_map}
use wlog.Redact.Tokenize.{tokenize, cut_key}
use wlog.Redact.Match.{Texts, Denylist, matches_key, denies_path}
use wlog.Redact.Match.Runs.{Run, matches_key_iff}
use wlog.Redact.Build.{built, remove_keys, build_denylist, no_rules, has_char, is_dot, is_star}
use wlog.Redact.Build.Denies.{build_denylist-matches_key}
use wlog.Redact.Apply.{Library, Redactor, apply, denied, run_transforms}
use wlog.Redact.Apply.Secrecy.{SameFields, secret, shown, same_end, alike, objects, apply-Same}
use wlog.Redact.Apply.Depth.{fields_nesting, apply-nesting}

-- The tables of ASCII, but for the mapping to lower case, which leaves letters alone.
abbrev ascii : Unicode
ascii = record {
  is_space = λ c. leb (code c) 32;
  is_upper = λ c. leb 65 (code c) && leb (code c) 90;
  is_lower = λ c. leb 97 (code c) && leb (code c) 122;
  to_lower = λ c. c;
}

abbrev texts : Texts
texts = record { unicode = ascii; path_match = λ p s. some (str_eq p s) }

abbrev deny : Denylist
deny = record {
  leaf_tokens = "password" ∷ "api key" ∷ "apikey" ∷ [];
  max_leaf_tokens = 2;
  leaf_globs = [];
  paths = [];
  kept = "rpc.mcp.session" ∷ [];
}

abbrev library : Library
library = record {
  texts = texts;
  format_int = λ n. "1";
  format_uint = λ n. "1";
  stack_jwt = λ s. ([], s);
}

abbrev redactor : Redactor
redactor = record {
  disabled = false;
  denylist = deny;
  patterns = [];
  mask_client_ip = false;
  transforms = [];
  replacement = "[REDACTED]";
  replace_func = none;
  max_depth = 16;
  max_string_scan = 65536;
}

words : tokenize ascii "stripe_api_keyID-old" ≡ "stripe" ∷ "api" ∷ "key" ∷ "ID" ∷ "old" ∷ []
unfolding tokenize
words = refl

abbrev login : String → Fields
login pw = field "user" (object (field "name" (str "ann") (field "user_password" (str pw) end))) end

masked : apply library redactor (login "secret") ≡ login "[REDACTED]"
unfolding apply wlog.Redact.Apply.apply_map wlog.Redact.Match.keeps wlog.Redact.Match.listed
    wlog.Base.Strings.join matches_key wlog.Redact.Tokenize.join_tokens
    wlog.Redact.Match.matches_leaf_glob wlog.Redact.Match.matches_path
    wlog.Redact.Apply.apply_patterns
masked = refl

-- A key of a list of texts is not looked up in the denylist.
texts_pass :
    apply library redactor (field "labels" (string_map (("password", "secret") ∷ [])) end)
    ≡ field "labels" (object (field "password" (str "secret") end)) end
unfolding apply wlog.Redact.Apply.apply_map wlog.Redact.Match.keeps wlog.Redact.Match.listed
    wlog.Base.Strings.join matches_key wlog.Redact.Tokenize.join_tokens
    wlog.Redact.Match.matches_leaf_glob wlog.Redact.Match.matches_path
    wlog.Redact.Apply.apply_patterns
texts_pass = refl

abbrev stripe_run : Run (tokenize ascii (cut_key "stripe_api_key")) 2 deny.leaf_tokens
unfolding tokenize cut_key wlog.Redact.Match.listed wlog.Redact.Tokenize.join_tokens
stripe_run = record {
  before = "stripe" ∷ [];
  run = "api" ∷ "key" ∷ [];
  after = [];
  parts = refl;
  is_some = omega arith;
  within = omega arith;
  is_listed = refl;
}

matches_key_iff_example :
    (matches_key texts deny "stripe_api_key" ≡ true)
    ↔ Run (tokenize ascii (cut_key "stripe_api_key")) 2 deny.leaf_tokens
matches_key_iff_example = matches_key_iff texts deny "stripe_api_key"

-- A leaf glob that does not start with a star: the key is masked, and its path is not denied.
abbrev pins : Redactor
pins = record redactor { denylist = record deny { leaf_globs = "pin_*" ∷ [] } }

abbrev starred : Texts
starred = record texts { path_match = λ p s. some (str_eq p "pin_*" && str_eq s "pin_code") }

pin_masked :
    denied (record library { texts = starred }) pins ("user" ∷ "pin_code" ∷ []) "pin_code" ≡ true
unfolding denied wlog.Redact.Match.keeps wlog.Redact.Match.listed wlog.Base.Strings.join matches_key
    wlog.Redact.Tokenize.join_tokens wlog.Redact.Match.matches_leaf_glob
    wlog.Redact.Match.matches_path wlog.Redact.Match.glob_match wlog.Redact.Match.lower
pin_masked = refl

pin_path_passes : denies_path starred pins.denylist ("user" ∷ "pin_code" ∷ []) ≡ false
unfolding denies_path wlog.Redact.Match.listed wlog.Redact.Tokenize.join_tokens
    wlog.Redact.Match.glob_match wlog.Redact.Match.lower
pin_path_passes = refl

password_denied : denied library redactor ("user" ∷ "user_password" ∷ []) "user_password" ≡ true
unfolding wlog.Redact.Apply.denied wlog.Redact.Match.keeps wlog.Redact.Match.listed
    wlog.Base.Strings.join matches_key wlog.Redact.Tokenize.join_tokens
    wlog.Redact.Match.matches_leaf_glob wlog.Redact.Match.matches_path
password_denied = refl

same_login :
    SameFields library redactor []
      (run_transforms [] (login "secret"))
      (run_transforms [] (login "guess"))
unfolding run_transforms
same_login = shown (objects (shown alike (secret password_denied same_end))) same_end

apply-Same_example :
    apply library redactor (login "secret") ≡ apply library redactor (login "guess")
apply-Same_example =
    apply-Same library redactor (login "secret") (login "guess") refl refl same_login

apply-nesting_example : fields_nesting (apply library redactor (login "secret")) ≤ 17
apply-nesting_example = apply-nesting library redactor (login "secret") refl

-- A denylist of three keys, one of which is removed.
abbrev key_list : List String
key_list = "password" ∷ "token" ∷ "api_key" ∷ []

abbrev denylist_built : Denylist
denylist_built = record no_rules {
  leaf_tokens = "password" ∷ "api key" ∷ "apikey" ∷ [];
  max_leaf_tokens = 2;
}

removed : remove_keys str_eq ("token" ∷ []) key_list ≡ built ("password" ∷ "api_key" ∷ [])
unfolding remove_keys
removed = refl

builds : build_denylist texts str_eq key_list ("token" ∷ []) ≡ built denylist_built
unfolding build_denylist tokenize cut_key wlog.Redact.Tokenize.join_tokens has_char
builds = refl

no_dot : has_char is_dot "api_key" ≡ false
unfolding has_char
no_dot = refl

no_star : has_char is_star "api_key" ≡ false
unfolding has_char
no_star = refl

api_key_words : tokenize ascii (cut_key "api_key") ≡ "api" ∷ "key" ∷ []
unfolding tokenize cut_key
api_key_words = refl

some_words : 0 < length (tokenize ascii (cut_key "api_key"))
some_words = rw api_key_words (omega arith)

stripe_words :
    tokenize ascii (cut_key "stripe_api_key")
    ≡ ("stripe" ∷ []) ++ (tokenize ascii (cut_key "api_key") ++ [])
unfolding tokenize cut_key
stripe_words = refl

build_denylist-matches_key_example : matches_key texts denylist_built "stripe_api_key" ≡ true
build_denylist-matches_key_example =
    build_denylist-matches_key texts str_eq key_list ("token" ∷ []) ("password" ∷ []) [] "api_key"
      denylist_built "stripe_api_key" ("stripe" ∷ []) [] removed no_dot no_star builds some_words
      stripe_words
