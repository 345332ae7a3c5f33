-- ===== src/Sample.antt =====
-- sample/: the head rate of a level, and the rules that keep an event whatever its rate. A float is
-- not computed with: a percentage is a value of `Percents`, whose tests are those that the source
-- makes of one. The hash of a trace id and the random draw are its parameters too.
pub mod Glob
pub mod Decides
mod Tests
use wlog.Base.{
  ℕ, ◌%◌, ◌≤◌, ◌≡◌, Bool, true, false, not, ◌&&◌, ◌||◌, Option, none, some, List, [], ◌∷◌, ◌++◌,
  String, str_eq, if◌then◌else◌, leb, all, any,
}
use wlog.Base.Int.{ℤ, pos, negsuc}
use wlog.Value.{Value, Fields, int, float, str, object}
use wlog.Value.Maps.{get}
use wlog.Sample.Glob.{match_glob, valid_glob}

abbrev pub sample_buckets : ℕ
sample_buckets = 1000000

-- `whole` is 100 and `nil_rate` is 0. `is_valid` is false of a NaN and outside 0 to 100, and `under`
-- compares a bucket with the share of the buckets that a percentage stands for.
pub record Percents (P : Type 0) : Type 0 where
  pub whole : P
  pub nil_rate : P
  pub is_whole : P → Bool
  pub is_nil : P → Bool
  pub is_valid : P → Bool
  pub under : ℕ → P → Bool

-- What a rule reads: the event's fields and its level.
pub record View : Type 0 where
  pub fields : Fields
  pub level : String

-- A rule: the option that made it is its test.
pub data TailRule : Type 0 where
  status : ℤ → TailRule
  duration : ℤ → TailRule
  on_path : String → TailRule
  custom : (View → Bool) → TailRule

module _ (P : Type 0) where
  pub record RateRule : Type 0 where
    pub level : String
    pub percent : P

  pub record Keeper : Type 0 where
    pub rates : List RateRule
    pub tails : List TailRule

  pub data SampleOption : Type 0 where
    rate : String → P → SampleOption
    tail : TailRule → SampleOption

-- The value at a path of keys.
value_at : List String → Option Value → Option Value
value_at [] v = v
value_at (k ∷ ks) none = none
value_at (k ∷ ks) (some (object m)) = value_at ks (get k m)
value_at (k ∷ ks) (some _) = none

pub get_path : List String → View → Option Value
unfolding value_at
get_path path view = value_at path (some (object view.fields))

-- `x >= y`
pub at_or_above : ℤ → ℤ → Bool
at_or_above (pos m) (pos n) = leb n m
at_or_above (pos m) (negsuc n) = true
at_or_above (negsuc m) (pos n) = false
at_or_above (negsuc m) (negsuc n) = leb m n

pub reaches : ℤ → Option ℤ → Bool
reaches low none = false
reaches low (some n) = at_or_above n low

text_of : Option Value → Option String
text_of (some (str s)) = some s
text_of _ = none

on_text : (String → Bool) → Option String → Bool
on_text f none = false
on_text f (some s) = f s

-- `truncate` is Go's conversion of a float to an int, of the float's bits.
module _ (truncate : ℕ → ℤ) where
  num_of : Option Value → Option ℤ
  num_of (some (int n)) = some n
  num_of (some (float bits)) = some (truncate bits)
  num_of _ = none

  pub int_at : List String → View → Option ℤ
  unfolding num_of
  int_at path view = num_of (get_path path view)

module _ (truncate : ℕ → ℤ) (path_match : String → String → Option Bool) where
  pub matches : TailRule → View → Bool
  unfolding reaches on_text text_of
  matches (status low) view = reaches low (int_at truncate ("http" ∷ "status" ∷ []) view)
  matches (duration low) view = reaches low (int_at truncate ("duration_ms" ∷ []) view)
  matches (on_path glob) view =
      on_text (match_glob path_match glob) (text_of (get_path ("http" ∷ "path" ∷ []) view))
  matches (custom f) view = f view

  pub keep : {P : Type 0} → Keeper P → View → Bool
  keep k view = any (λ t. matches t view) k.tails || str_eq view.level "error"

module _ (path_match : String → String → Option Bool) where
  rule_is_valid : (String → Bool) → TailRule → Bool
  rule_is_valid is_space (status low) = true
  rule_is_valid is_space (duration low) = true
  rule_is_valid is_space (on_path glob) =
      if str_eq glob "" then true else valid_glob path_match is_space glob
  rule_is_valid is_space (custom f) = true

module _ {P : Type 0} where
  pub add : Keeper P → SampleOption P → Keeper P
  add k (rate level percent) = record k {
    rates = k.rates ++ record { level = level; percent = percent } ∷ [];
  }
  add k (tail t) = record k { tails = k.tails ++ t ∷ [] }

  pub add_all : Keeper P → List (SampleOption P) → Keeper P
  add_all k [] = k
  add_all k (o ∷ os) = add_all (add k o) os

  abbrev pub no_rules : Keeper P
  no_rules = record { rates = []; tails = [] }

  -- The last rule of the level, found from the end.
  last_or : Option P → String → RateRule P → Option P
  last_or (some p) level r = some p
  last_or none level r = if str_eq r.level level then some r.percent else none

  last_rate : List (RateRule P) → String → Option P
  unfolding last_or
  last_rate [] level = none
  last_rate (r ∷ rs) level = last_or (last_rate rs level) level r

  or_whole : Percents P → Option P → P
  or_whole ps none = ps.whole
  or_whole ps (some p) = p

  pub rate_for : Percents P → Keeper P → String → P
  unfolding last_rate or_whole
  rate_for ps k level = or_whole ps (last_rate k.rates level)

  -- `draw` is the random test of an event that has no trace id.
  decide : Percents P → (String → ℕ) → Bool → P → String → Bool × P
  decide ps hash draw percent trace =
      if ps.is_whole percent
      then (true, ps.whole)
      else if ps.is_nil percent
      then (false, ps.nil_rate)
      else if str_eq trace ""
      then (draw, percent)
      else (ps.under (hash trace % sample_buckets) percent, percent)

  pub sample : Percents P → (String → ℕ) → Bool → Keeper P → String → String → Bool × P
  unfolding decide
  sample ps hash draw k level trace = decide ps hash draw (rate_for ps k level) trace

  -- `New`: none is an error.
  pub new :
      (String → String → Option Bool)
      → (String → Bool)
      → Percents P
      → List (SampleOption P)
      → Option (Keeper P)
  unfolding rule_is_valid
  new path_match is_space ps opts =
      let k = add_all no_rules opts in
      if all (λ r. ps.is_valid r.percent) k.rates
      then if all (rule_is_valid path_match is_space) k.tails then some k else none
      else none

  -- `KeepErrorsAndSlow`, of a duration in milliseconds.
  pub keep_errors_and_slow : Percents P → ℤ → P → List (SampleOption P)
  keep_errors_and_slow ps slow healthy =
      tail (duration slow)
      ∷ tail (status (pos 500))
      ∷ tail (custom (λ view. str_eq view.level "warn"))
      ∷ rate "info" healthy
      ∷ rate "debug" ps.nil_rate
      ∷ []
