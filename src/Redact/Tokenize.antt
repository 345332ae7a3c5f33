-- ===== src/Redact/Tokenize.antt =====
-- redact/tokenize.go: a key as its words, and the cut of a key that is too long.
use Prim.Native.Char.{Char, char, code, len_utf8}
use Prim.Native.String.{len, [] as blank, ◌∷◌ as prepend}
use wlog.Base.{
  ℕ, zero, suc, ◌-◌, Bool, false, not, ◌&&◌, ◌||◌, List, [], ◌∷◌, ◌++◌, map, String, if◌then◌else◌,
  leb, ◌==◌,
}
use wlog.Base.Strings.{Unicode, ◌<>◌, is_blank, map_chars, join}

abbrev pub max_key_bytes : ℕ
max_key_bytes = 256

abbrev one_char : Char → String
one_char c = prepend c blank

-- What a rune that is cut inside reads as: a replacement character for every byte that is left.
replacements : ℕ → String
replacements zero = blank
replacements (suc n) = prepend (char 65533 tt) (replacements n)

cut_bytes : ℕ → String → String
unfolding replacements
cut_bytes room blank = blank
cut_bytes room (prepend c s) =
    let rest = cut_bytes (room - len_utf8 c) s in
    if leb (len_utf8 c) room then prepend c rest else replacements room

unfoldable pub cut_key : String → String
unfolding cut_bytes
cut_key key = if leb (len key) max_key_bytes then key else cut_bytes max_key_bytes key

is_separator : Char → Bool
is_separator c = code c == 95 || (code c == 45 || (code c == 46 || code c == 32))

-- `if len(cur) > 0 { segments = append(segments, string(cur)) }`
flush : List String → String → List String
flush segments cur = if is_blank cur then segments else segments ++ cur ∷ []

segments_from : List String → String → String → List String
unfolding is_separator flush
segments_from segments cur blank = flush segments cur
segments_from segments cur (prepend c s) =
    segments_from (if is_separator c then flush segments cur else segments)
      (if is_separator c then "" else cur <> one_char c) s

-- `i+1 < len(runes) && unicode.IsLower(runes[i+1])`
lower_next : Unicode → String → Bool
lower_next u blank = false
lower_next u (prepend c s) = u.is_lower c

boundary : Unicode → Char → Char → String → Bool
unfolding lower_next
boundary u prev cur rest =
    (not (u.is_upper prev) && u.is_upper cur)
    || (u.is_upper prev && (u.is_upper cur && lower_next u rest))

-- The loop over the runes after the first, with the token so far.
camel : Unicode → Char → String → String → List String
unfolding boundary ◌<>◌
camel u prev token blank = token ∷ []
camel u prev token (prepend c s) =
    let starts = boundary u prev c s in
    let rest = camel u c (if starts then one_char c else token <> one_char c) s in
    if starts then token ∷ rest else rest

split_camel : Unicode → String → List String
unfolding camel
split_camel u blank = []
split_camel u (prepend c s) = camel u c (one_char c) s

split_all : Unicode → List String → List String
unfolding split_camel
split_all u [] = []
split_all u (s ∷ segments) = split_camel u s ++ split_all u segments

unfoldable pub tokenize : Unicode → String → List String
unfolding segments_from split_all map_chars
tokenize u key = map (map_chars u.to_lower) (split_all u (segments_from [] "" key))

unfoldable pub join_tokens : List String → String
unfolding join
join_tokens tokens = join " " tokens
