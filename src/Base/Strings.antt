-- ===== src/Base/Strings.antt =====
-- Go's functions on texts that the modules share, over the characters of a text. The classes of
-- characters that Go takes from the Unicode tables are a parameter.
use Prim.Native.Char.{Char}
use Prim.Native.String.{String, [] as blank, ◌∷◌ as prepend}
use mathlib.Core.Path.{◌≡◌, refl}
use mathlib.Core.Logic.{inl, inr}
use mathlib.Core.Bool.{Bool, true, false, ◌&&◌, not}
use mathlib.Core.List.{List, [], ◌∷◌}
use wlog.Base.Tests.{if◌then◌else◌, Bool-cases}

pub record Unicode : Type 0 where
  pub is_space : Char → Bool
  pub is_upper : Char → Bool
  pub is_lower : Char → Bool
  pub to_lower : Char → Char

infixr 65 ◌<>◌
unfoldable pub ◌<>◌ : String → String → String
blank <> t = t
(prepend c s) <> t = prepend c (s <> t)

abbrev pub is_blank : String → Bool
is_blank blank = true
is_blank (prepend c s) = false

unfoldable pub all_chars : (Char → Bool) → String → Bool
all_chars p blank = true
all_chars p (prepend c s) = p c && all_chars p s

unfoldable pub map_chars : (Char → Char) → String → String
map_chars f blank = blank
map_chars f (prepend c s) = prepend (f c) (map_chars f s)

-- `TrimLeft` and `TrimRight` of a class of characters.
unfoldable pub trim_left : (Char → Bool) → String → String
trim_left p blank = blank
trim_left p (prepend c s) = let rest = trim_left p s in if p c then rest else prepend c s

unfoldable pub trim_right : (Char → Bool) → String → String
trim_right p blank = blank
trim_right p (prepend c s) =
    let rest = trim_right p s in if p c && is_blank rest then blank else prepend c rest

unfoldable pub trim : (Char → Bool) → String → String
unfolding trim_left trim_right
trim p s = trim_right p (trim_left p s)

unfoldable pub grow : Char → List String → List String
grow c [] = prepend c blank ∷ []
grow c (p ∷ ps) = prepend c p ∷ ps

-- `strings.Split` by one character.
unfoldable pub split : (Char → Bool) → String → List String
unfolding grow
split p blank = blank ∷ []
split p (prepend c s) = let parts = split p s in if p c then blank ∷ parts else grow c parts

-- `strings.Join` with a separator.
unfoldable pub join : String → List String → String
unfolding ◌<>◌
join sep [] = blank
join sep (s ∷ []) = s
join sep (s ∷ t ∷ ts) = s <> (sep <> join sep (t ∷ ts))

-- A text without the separator is a part of its own.
pub split-one :
    (p : Char → Bool) (s : String) → all_chars (λ c. not (p c)) s ≡ true → split p s ≡ s ∷ []
unfolding split all_chars grow
split-one p blank h = refl
split-one p (prepend c s) h = elim (Bool-cases (p c)) [
  | inl sep ↦ cc (rw sep at h)
  | inr other ↦ rw (other, split-one p s (rw other at h)) refl
]

pub split-append :
    (p : Char → Bool) (s : String) (c : Char) (t : String)
    → all_chars (λ d. not (p d)) s ≡ true
    → p c ≡ true
    → split p (s <> prepend c t) ≡ s ∷ split p t
unfolding split all_chars ◌<>◌ grow
split-append p blank c t h sep = rw sep refl
split-append p (prepend d s) c t h sep = elim (Bool-cases (p d)) [
  | inl bad ↦ cc (rw bad at h)
  | inr other ↦ rw (other, split-append p s c t (rw other at h) sep) refl
]

pub all_chars-implies :
    (p q : Char → Bool) (s : String)
    → ((c : Char) → p c ≡ true → q c ≡ true)
    → all_chars p s ≡ true
    → all_chars q s ≡ true
unfolding all_chars
all_chars-implies p q blank step h = refl
all_chars-implies p q (prepend c s) step h = elim (Bool-cases (p c)) [
  | inl here ↦ rw (step c here) (all_chars-implies p q s step (rw here at h))
  | inr bad ↦ cc (rw bad at h)
]
