-- ===== src/Sample/Glob.antt =====
-- sample/glob.go: globs over the segments of a path. `path.Match` of one segment is a parameter: it
-- gives none for a pattern that does not compile.
use Prim.Native.Char.{Char, code}
use Prim.Native.String.{[] as blank, ◌∷◌ as prepend}
use wlog.Base.Strings.{split, trim}
use wlog.Base.{
  ◌≡◌, refl, ap, sym, subst, ◌≢◌, ◌↔◌, String, Bool, true, false, ◌&&◌, ◌||◌, Option, none, some,
  List, [], ◌∷◌, str_eq, eq_iff, if◌then◌else◌, ◌==◌, Bool-cases, inl, inr, arith, all,
}

-- '/' and '*'
abbrev is_slash : Char → Bool
is_slash c = code c == 47

abbrev is_star : Char → Bool
is_star c = code c == 42

abbrev pub double_star : String
double_star = "**"

-- `strings.Split(strings.Trim(s, "/"), "/")`
pub segments : String → List String
segments s = split is_slash (trim is_slash s)

has_stars : String → Bool
has_stars blank = false
has_stars (prepend c blank) = false
has_stars (prepend c (prepend d s)) =
    let rest = has_stars (prepend d s) in (is_star c && is_star d) || rest

any_suffix : (List String → Bool) → List String → Bool
any_suffix f [] = f []
any_suffix f (s ∷ ss) = f (s ∷ ss) || any_suffix f ss

is_empty : List String → Bool
is_empty [] = true
is_empty (s ∷ ss) = false

matched : Option Bool → Bool
matched none = false
matched (some b) = b

compiles : Option Bool → Bool
compiles none = false
compiles (some b) = true

module _ (path_match : String → String → Option Bool) where
  one_segment : String → (List String → Bool) → List String → Bool
  one_segment p f [] = false
  one_segment p f (s ∷ ss) = matched (path_match p s) && f ss

  pub match_segments : List String → List String → Bool
  unfolding any_suffix one_segment is_empty
  match_segments [] ss = is_empty ss
  match_segments (p ∷ ps) ss =
      let later = match_segments ps in
      if str_eq p double_star then any_suffix later ss else one_segment p later ss

  pub match_glob : String → String → Bool
  match_glob pattern p = match_segments (segments pattern) (segments p)

  valid_segment : String → Bool
  unfolding compiles has_stars
  valid_segment s =
      if str_eq s double_star
      then true
      else if has_stars s
      then false
      else compiles (path_match s "probe")

  -- `is_space` is the space of `strings.TrimSpace`.
  pub valid_glob : (String → Bool) → String → Bool
  unfolding valid_segment
  valid_glob is_space pattern =
      if is_space pattern then false else all valid_segment (segments pattern)

  -- What a glob means: a double star stands for any run of segments, every other segment for one.
  pub data Covers : List String → List String → Type 0 where
    done : Covers [] []
    skip : {ps ss : List String} → Covers ps ss → Covers (double_star ∷ ps) ss
    absorb :
        {ps ss : List String} (s : String)
        → Covers (double_star ∷ ps) ss
        → Covers (double_star ∷ ps) (s ∷ ss)
    segment :
        {p s : String} {ps ss : List String}
        → p ≢ double_star
        → path_match p s ≡ some true
        → Covers ps ss
        → Covers (p ∷ ps) (s ∷ ss)

  any_suffix-Covers :
      (ps : List String) (f : List String → Bool) (ss : List String)
      → ((ts : List String) → f ts ≡ true → Covers ps ts)
      → any_suffix f ss ≡ true
      → Covers (double_star ∷ ps) ss
  unfolding any_suffix
  any_suffix-Covers ps f [] sound h = skip (sound [] h)
  any_suffix-Covers ps f (s ∷ ss) sound h = elim (Bool-cases (f (s ∷ ss))) [
    | inl here ↦ skip (sound (s ∷ ss) here)
    | inr later ↦ absorb s (any_suffix-Covers ps f ss sound (ground (arith, later, h)))
  ]

  one_segment-Covers :
      (p : String) (ps : List String) (f : List String → Bool) (ss : List String)
      → p ≢ double_star
      → ((ts : List String) → f ts ≡ true → Covers ps ts)
      → one_segment p f ss ≡ true
      → Covers (p ∷ ps) ss
  unfolding one_segment matched
  one_segment-Covers p ps f [] apart sound h = cc
  one_segment-Covers p ps f (s ∷ ss) apart sound h =
      segment apart (matched_some (path_match p s) (ground (arith, h)))
        (sound ss (ground (arith, h)))
    where
      matched_some : (o : Option Bool) → matched o ≡ true → o ≡ some true
      matched_some none e = cc
      matched_some (some b) e = ap some e

  match_segments-Covers : (ps ss : List String) → match_segments ps ss ≡ true → Covers ps ss
  unfolding match_segments is_empty
  match_segments-Covers [] [] h = done
  match_segments-Covers [] (s ∷ ss) h = cc
  match_segments-Covers (p ∷ ps) ss h =
      let (to, from) = eq_iff p double_star in
      elim (Bool-cases (str_eq p double_star)) [
        | inl stars ↦
            subst (λ q. Covers (q ∷ ps) ss) (sym (to stars))
              (any_suffix-Covers ps (match_segments ps) ss (match_segments-Covers ps)
                (rw stars at h))
        | inr plain ↦
            one_segment-Covers p ps (match_segments ps) ss (λ e. let both = from e in cc)
              (match_segments-Covers ps) (rw plain at h)
      ]

  any_suffix-here :
      (f : List String → Bool) (ss : List String) → f ss ≡ true → any_suffix f ss ≡ true
  unfolding any_suffix
  any_suffix-here f [] h = h
  any_suffix-here f (s ∷ ss) h = rw h refl

  any_suffix-later :
      (f : List String → Bool) (s : String) (ss : List String)
      → any_suffix f ss ≡ true
      → any_suffix f (s ∷ ss) ≡ true
  unfolding any_suffix
  any_suffix-later f s ss h = elim (f (s ∷ ss)) as (λ b. b || any_suffix f ss ≡ true) [
    | true ↦ refl
    | false ↦ h
  ]

  Covers-match_segments : (ps ss : List String) → Covers ps ss → match_segments ps ss ≡ true
  unfolding match_segments is_empty one_segment matched
  Covers-match_segments [] [] done = refl
  Covers-match_segments [] (s ∷ ss) c = elim c [ ]
  Covers-match_segments (_ ∷ ps) ss (skip c) =
      any_suffix-here (match_segments ps) ss (Covers-match_segments ps ss c)
  Covers-match_segments (_ ∷ ps) (s ∷ ss) (absorb _ c) =
      any_suffix-later (match_segments ps) s ss (Covers-match_segments (double_star ∷ ps) ss c)
  Covers-match_segments (p ∷ ps) (s ∷ ss) (segment apart m c) =
      let (to, from) = eq_iff p double_star in
      elim (Bool-cases (str_eq p double_star)) [
        | inl stars ↦ absurd (apart (to stars))
        | inr plain ↦ rw plain (rw (m, Covers-match_segments ps ss c))
      ]

  -- matchSegments decides the meaning of a glob: it holds exactly when the pattern's segments cover
  -- the path's, each double star for any run of segments and each other segment for one that
  -- path.Match accepts.
  pub match_segments_iff : (ps ss : List String) → (match_segments ps ss ≡ true) ↔ Covers ps ss
  match_segments_iff ps ss = (match_segments-Covers ps ss, Covers-match_segments ps ss)
