-- ===== src/Sample/Tests.antt =====
-- Concrete samplers, and the theorems applied to them. A percentage is a number of hundred-millionths.
use Prim.Native.String.{len}
use wlog.Base.{
  ℕ, ◌*◌, ◌≡◌, refl, ◌↔◌, Bool, true, false, ◌||◌, Option, some, [], ◌∷◌, String, str_eq, leb, ltb,
  ◌==◌, arith,
}
use wlog.Base.Int.{pos}
use wlog.Value.{end, field, object, int}
use wlog.Sample.{
  Percents, View, Keeper, keep, add, add_all, no_rules, rate, rate_for, sample,
  keep_errors_and_slow, reaches, int_at,
}
use wlog.Sample.Glob.{Covers, double_star, match_segments, match_segments_iff}
use wlog.Sample.Decides.{rate_for-add, sample-monotone}

abbrev parts : Percents ℕ
parts = record {
  whole = 100000000;
  nil_rate = 0;
  is_whole = λ p. leb 100000000 p;
  is_nil = λ p. p == 0;
  is_valid = λ p. leb p 100000000;
  under = λ b p. ltb (b * 100) p;
}

-- A segment of one star matches any segment, and every other segment itself.
abbrev path_match : String → String → Option Bool
path_match p s = some (str_eq p "*" || str_eq p s)

abbrev slow_request : View
slow_request = record {
  fields =
      field "duration_ms" (int (pos 900))
        (field "http" (object (field "status" (int (pos 200)) end)) end);
  level = "info";
}

abbrev tenth : Keeper ℕ
tenth = record { rates = record { level = "info"; percent = 10000000 } ∷ []; tails = [] }

abbrev half : Keeper ℕ
half = record { rates = record { level = "info"; percent = 50000000 } ∷ []; tails = [] }

match_segments_iff_example :
    (match_segments path_match ("api" ∷ double_star ∷ "*" ∷ []) ("api" ∷ "v1" ∷ "users" ∷ "7" ∷ [])
      ≡ true)
    ↔ Covers path_match ("api" ∷ double_star ∷ "*" ∷ []) ("api" ∷ "v1" ∷ "users" ∷ "7" ∷ [])
match_segments_iff_example =
    match_segments_iff path_match ("api" ∷ double_star ∷ "*" ∷ [])
      ("api" ∷ "v1" ∷ "users" ∷ "7" ∷ [])

rate_for-add_example : rate_for parts (add tenth (rate "info" 7)) "info" ≡ 7
rate_for-add_example = rate_for-add parts tenth "info" 7 "info"

-- The production preset keeps a status of 500 and a request as long as the limit, and one less of
-- either not.
abbrev answered : ℕ → ℕ → View
answered status took = record slow_request {
  fields =
      field "http" (object (field "status" (int (pos status)) end))
        (field "duration_ms" (int (pos took)) end);
}

abbrev production : View → Bool
production view =
    keep (λ bits. pos bits) path_match (add_all no_rules (keep_errors_and_slow parts (pos 500) 1))
      view

failed_kept : production (answered 500 1) ≡ true
unfolding keep add_all keep_errors_and_slow add wlog.Sample.matches int_at wlog.Sample.get_path
    wlog.Value.Maps.get wlog.Sample.at_or_above
failed_kept = refl

refused_not_kept : production (answered 499 499) ≡ false
unfolding keep add_all keep_errors_and_slow add wlog.Sample.matches int_at wlog.Sample.get_path
    wlog.Value.Maps.get wlog.Sample.at_or_above
refused_not_kept = refl

slow_kept : production (answered 200 500) ≡ true
unfolding keep add_all keep_errors_and_slow add wlog.Sample.matches int_at wlog.Sample.get_path
    wlog.Value.Maps.get wlog.Sample.at_or_above
slow_kept = refl

rate_for-tenth : rate_for parts tenth "info" ≡ 10000000
unfolding rate_for
rate_for-tenth = refl

sample-monotone_example : (sample parts len true half "info" "4bf92f").0 ≡ true
unfolding rate_for sample
sample-monotone_example =
    sample-monotone parts len false true tenth half "info" "4bf92f" refl (λ e. e) (λ e. e)
      (λ b e. ground (arith, e)) refl
