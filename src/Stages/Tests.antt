-- ===== src/Stages/Tests.antt =====
-- Concrete loggers and events, and the theorems applied to them.
use wlog.Base.{ℕ, ◌≡◌, refl, true, false, some, [], ◌∷◌, ltb}
use wlog.Base.Int.{pos}
use wlog.Value.{Fields, end, field, str, int}
use wlog.Value.Maps.{get, put}
use wlog.Stages.{Core, gave, panicked, Logger, emit, plain_line, filter_level}
use wlog.Stages.Fates.{emit-IsSettled, plain_line-IsSettled, IsSettled, filter_level-audit}

abbrev audited : Fields
audited = field "level" (str "debug") (field "audit" (str "signed") end)

abbrev quiet : Core
quiet = record {
  emitted = 4;
  sampled = 2;
  level = 1;
  disabled = 0;
  closed = 0;
  too_large = 0;
  problems = [];
  delivered = audited ∷ audited ∷ audited ∷ audited ∷ [];
}

-- A sampler that keeps a tenth, a keeper that panics and an enricher that writes and then panics.
abbrev tenth : Logger ℕ
tenth = record {
  whole = 100;
  is_partial = λ r. ltb r 100;
  rate_value = λ r. int (pos r);
  head_sampler = some (λ name trace. gave (false, 10));
  keepers = (λ event. panicked) ∷ [];
  enrichers = (λ event. (put "host" (str "a") event, true)) ∷ [];
  redact = λ event. event;
  summary = λ event. "done";
  fingerprint = "";
  min_level = "warn";
  is_debug = true;
  is_closed = false;
  is_enabled = true;
}

emit-IsSettled_example :
    IsSettled tenth quiet (emit tenth "info" false (field "level" (str "info") end) quiet)
emit-IsSettled_example = emit-IsSettled tenth "info" false (field "level" (str "info") end) quiet

plain_line-IsSettled_example :
    IsSettled tenth quiet (plain_line tenth "info" false (field "level" (str "info") end) quiet)
plain_line-IsSettled_example =
    plain_line-IsSettled tenth "info" false (field "level" (str "info") end) quiet

filter_level-audit_example :
    ((filter_level tenth "debug" true audited quiet).sampled ≡ 2)
    × ((filter_level tenth "debug" true audited quiet).level ≡ 1)
unfolding get
filter_level-audit_example = filter_level-audit tenth "debug" audited quiet refl
