-- ===== src/Pipeline/Tests.antt =====
-- Concrete pipelines, and the theorems applied to them.
use wlog.Base.{
  ℕ, zero, suc, ◌+◌, ◌*◌, ◌≤◌, ◌≡◌, refl, min, true, not, ◌&&◌, none, some, List, [], ◌∷◌, ◌++◌,
  arith, length, drop,
}
use wlog.Base.Int.{pos, negsuc}
use wlog.Value.Maps.{get}
use wlog.Value.{Fields, end, field, str, int}
use wlog.Pipeline.{Config, Worker, PartialError, delivered, failed, panicked, Outside}
use wlog.Pipeline.Options.{
  configure, batch_size, max_attempts, default_config, second, IsUsable, configure-IsUsable,
  min_level,
}
use wlog.Pipeline.Buffer.{started, send, take_batch_if_ready, next_wake}
use wlog.Pipeline.Buffer.Bounds.{send-audit}
use wlog.Pipeline.Buffer.Due.{IsBatch, take_batch_if_ready-next_wake}
use wlog.Pipeline.Partial.{outcomes, sort_out, mark, flagged, place}
use wlog.Pipeline.Partial.Chosen.{chosen, lists, outcomes-chosen}
use wlog.Pipeline.Backoff.{
  jitter_bound, to_word, retry_delay, ideal, retry_delay_bounds, retry_delay_overflow,
}
use wlog.Pipeline.Batch.{send_batch, over}
use wlog.Pipeline.Batch.Ends.{Ended}
use wlog.Pipeline.Batch.Calls.{counting, Called, send_batch-Called}
use wlog.Pipeline.Run.{run, start, Step, submit, look, flush, shut, work}
use wlog.Pipeline.Run.Conserves.{IsAccounted, admitted, run-IsAccounted}
use wlog.Pipeline.Run.Bounds.{run-bounded}
use wlog.Pipeline.Fanout.{
  Move, start_fan_out, make_moves, sends, receives, delivers, leaves, closes,
}
use wlog.Pipeline.Fanout.Counts.{IsCounted, make_moves-IsCounted}
use wlog.Pipeline.Reports.{
  Drop, report_all, no_reports, named, lost, count_of, report_all-conserves,
}

abbrev numbered : ℕ → Fields
numbered n = field "level" (str "info") (field "n" (int (pos n)) end)

abbrev audited : Fields
audited = field "audit" (str "signed") (field "level" (str "debug") end)

-- The middle event of three is refused and the last is to be sent again; 9 and -1 name nothing.
abbrev middle_refused : PartialError
middle_refused = record {
  retry = pos 2 ∷ pos 1 ∷ pos 9 ∷ [];
  dropped = pos 1 ∷ negsuc 0 ∷ [];
  reason = "too_large";
}

abbrev three : List Fields
three = numbered 0 ∷ numbered 1 ∷ numbered 2 ∷ []

-- A Sender that panics, then refuses part of the batch, and then takes what it gets.
abbrev moody : Outside ℕ
moody = record {
  send_batch = λ n batch. elim n [
    | zero ↦ (1, panicked)
    | suc m ↦ elim m [
      | zero ↦ (2, failed (record { as_partial = some (some middle_refused); as_retry = none }))
      | suc k ↦ (suc (suc (suc k)), delivered)
    ]
  ];
  wait = λ n d. (n, true);
  random = λ n bound. (n, 0);
}

abbrev small : Config
small = record default_config { batch_size = 2; max_buffer = 3 }

abbrev holding : Worker
holding = record started { buf = three }

abbrev busy : List Step
busy =
    submit 0 (numbered 0)
    ∷ submit 1 (numbered 1)
    ∷ look 2
    ∷ work
    ∷ submit 3 (numbered 2)
    ∷ work
    ∷ flush
    ∷ work
    ∷ shut
    ∷ submit 9 (numbered 3)
    ∷ work
    ∷ []

run-IsAccounted_example : IsAccounted (admitted small busy) (run moody small busy (start 0))
run-IsAccounted_example = run-IsAccounted moody small 0 busy

send_batch-Called_example :
    (w' : Worker) × (calls : ℕ) × (s' : ℕ) × (send_batch (counting moody) small three started (0, 0)
      ≡ over w' (calls, s'))
    × Ended small three started w'
    × Called moody small started w' calls
send_batch-Called_example = send_batch-Called moody small three started 0

run-bounded_example : length (run moody small busy (start 0)).worker.buf ≤ 3
run-bounded_example = run-bounded moody small 0 busy (omega arith)

outcomes-middle_refused :
    outcomes middle_refused three
    ≡ (let both : List Fields × List Fields = (numbered 1 ∷ [], numbered 2 ∷ []) in both)
unfolding outcomes sort_out mark flagged place
outcomes-middle_refused = refl

outcomes-chosen_example : outcomes middle_refused three ≡ (
  chosen (lists middle_refused.dropped) 0 three,
  chosen (λ j. lists middle_refused.retry j && not (lists middle_refused.dropped j)) 0 three,
)
outcomes-chosen_example = outcomes-chosen middle_refused three

take_batch_if_ready-next_wake_example :
    IsBatch small (take_batch_if_ready small (7 + next_wake small 7 holding) holding).0
take_batch_if_ready-next_wake_example =
    take_batch_if_ready-next_wake small 7 holding (omega arith) (omega arith) (omega arith)

send-audit_example : (send small 0 audited holding).buf ≡ drop 1 three ++ audited ∷ []
unfolding get
send-audit_example = send-audit small 0 audited holding refl refl

retry_delay_bounds_example :
    (min (4 * second) (30 * second) ≤ retry_delay default_config 3 12345)
    × (retry_delay default_config 3 12345 ≤ 30 * second)
unfolding ideal jitter_bound to_word
retry_delay_bounds_example =
    retry_delay_bounds default_config second 3 12345 refl (omega arith) (omega arith) (omega arith)
      (omega arith) (omega arith) (omega arith)

retry_delay_overflow_example :
    retry_delay (record default_config { initial_delay = pos (10 * second) }) 31 5 ≡ 0
retry_delay_overflow_example =
    retry_delay_overflow (record default_config { initial_delay = pos (10 * second) }) (10 * second)
      31 5 refl refl (omega arith) (omega arith) (omega arith)

configure-IsUsable_example :
    IsUsable (configure (batch_size (negsuc 4) ∷ max_attempts (pos 0) ∷ min_level "warn" ∷ []))
configure-IsUsable_example =
    configure-IsUsable (batch_size (negsuc 4) ∷ max_attempts (pos 0) ∷ min_level "warn" ∷ [])

abbrev two_drops : List Drop
two_drops =
    record { events = 2; reason = "closed"; now = 5 }
    ∷ record { events = 3; reason = "closed"; now = 9 }
    ∷ []

report_all-conserves_example :
    named "closed" (report_all two_drops no_reports).problems
      + count_of ((report_all two_drops no_reports).entries "closed")
    ≡ lost "closed" two_drops
report_all-conserves_example = report_all-conserves two_drops "closed"

-- Two drains: the first delivers one event and has the other in hand, the second has both queued.
abbrev two_drains : List (Move ℕ)
two_drains =
    sends 7 ∷ receives 0 ∷ delivers 0 ∷ sends 8 ∷ receives 0 ∷ closes ∷ leaves 0 ∷ sends 9 ∷ []

two_drains_pending : (make_moves two_drains (start_fan_out 2)).pending ≡ 3
unfolding make_moves start_fan_out
two_drains_pending = refl

make_moves-IsCounted_example : IsCounted (make_moves two_drains (start_fan_out 2))
make_moves-IsCounted_example = make_moves-IsCounted 2 two_drains
