-- ===== src/Pipeline/Batch.antt =====
-- sendBatch of pipeline/pipeline.go: one batch, tried until it is settled.
pub mod Settles
pub mod Turns
pub mod Ends
pub mod Calls
use wlog.Base.{
  ℕ, zero, suc, ◌+◌, ◌-◌, ◌≤◌, ◌<◌, ◌≡◌, refl, min, Bool, true, false, Option, none, some, List, [],
  ◌∷◌, arith, if◌then◌else◌, leb, ltb, length,
}
use wlog.Base.Int.{ℤ, pos, negsuc}
use wlog.Value.{Fields}
use wlog.Pipeline.{
  Config, Worker, Cause, unsent, SendError, PartialError, RetryError, Answer, delivered, failed,
  panicked, Outside,
}
use wlog.Pipeline.Buffer.{lose, deliver}
use wlog.Pipeline.Partial.{drop_partial}
use wlog.Pipeline.Backoff.{is_positive, curve, jitter_bound, retry_delay}

-- The batch and the worker between two tries: `trying` stands at the head of the loop.
module _ {ℓ} (S : Type ℓ) where
  pub data Progress : Type ℓ where
    over : Worker → S → Progress
    trying : ℕ → List Fields → Option SendError → Worker → S → Progress

-- How a failed try goes on: it was settled, it is dropped at once, or it may be tried again.
pub data Verdict : Type 0 where
  settled : Worker → Verdict
  hopeless : List Fields → Worker → Verdict
  again : List Fields → Worker → Verdict

-- `trySendBatch`: a panic is a plain error.
plain_error : SendError
plain_error = record { as_partial = none; as_retry = none }

pub count_retry : ℕ → Worker → Worker
count_retry attempt w = if ltb 1 attempt then record w { retries = w.retries + 1 } else w

rest_of_batch : List Fields × Worker → Verdict
rest_of_batch ([], w) = settled w
rest_of_batch (e ∷ es, w) = again (e ∷ es) w

by_retry : Option RetryError → List Fields → Worker → Verdict
by_retry none batch w = again batch w
by_retry (some re) batch w = if re.retryable then again batch w else hopeless batch w

-- A typed-nil PartialError takes the plain path.
judge_by : Option (Option PartialError) → SendError → List Fields → Worker → Verdict
unfolding rest_of_batch by_retry
judge_by none err batch w = by_retry err.as_retry batch w
judge_by (some none) err batch w = again batch w
judge_by (some (some pe)) err batch w = rest_of_batch (drop_partial batch pe err w)

judge : SendError → List Fields → Worker → Verdict
judge err batch w = judge_by err.as_partial err batch w

-- A server's own wait, where it is above zero, under the cap.
own_wait : Config → Option RetryError → ℕ → ℕ
own_wait c none delay = delay
own_wait c (some re) delay = elim re.retry_after [
  | pos zero ↦ delay
  | pos (suc n) ↦ min (suc n) c.max_delay
  | negsuc n ↦ delay
]

module _ {ℓ} {S : Type ℓ} (o : Outside S) where
  draw : Config → ℕ → S → S × ℕ
  draw c attempt s =
      if is_positive (curve c attempt) then o.random s (jitter_bound c attempt) else (s, 0)

  -- A wait that is not above zero ends at once.
  rest : ℕ → S → S × Bool
  rest d s = if is_positive d then o.wait s d else (s, true)

  pause : Config → ℕ → SendError → S → S × Bool
  unfolding draw rest own_wait
  pause c attempt err s =
      let (s', jitter) = draw c attempt s in
      rest (own_wait c err.as_retry (retry_delay c attempt jitter)) s'

  -- A wait that is cut short ends the batch.
  resume : ℕ → List Fields → SendError → Worker → S × Bool → Progress S
  resume attempt batch err w (s, true) = trying (suc attempt) batch (some err) w s
  resume attempt batch err w (s, false) = over (lose batch (unsent (some err)) w) s

  go_on : Config → ℕ → SendError → Verdict → S → Progress S
  unfolding resume
  go_on c attempt err (settled w) s = over w s
  go_on c attempt err (hopeless batch w) s = over (lose batch (unsent (some err)) w) s
  go_on c attempt err (again batch w) s =
      if ltb attempt c.max_attempts
      then resume attempt batch err w (pause c attempt err s)
      else trying (suc attempt) batch (some err) w s

  pub answered : Config → ℕ → List Fields → Worker → S × Answer → Progress S
  unfolding go_on
  answered c attempt batch w (s, delivered) = over (deliver (length batch) w) s
  answered c attempt batch w (s, failed err) = go_on c attempt err (judge err batch w) s
  answered c attempt batch w (s, panicked) =
      go_on c attempt plain_error (judge plain_error batch w) s

  -- One turn of the loop, its test included.
  pub turn : Config → Progress S → Progress S
  unfolding answered
  turn c (over w s) = over w s
  turn c (trying attempt batch err w s) =
      if leb attempt c.max_attempts
      then answered c attempt batch (count_retry attempt w) (o.send_batch s batch)
      else over (lose batch (unsent err) w) s

  pub turns : ℕ → Config → Progress S → Progress S
  turns zero c p = p
  turns (suc n) c p = turns n c (turn c p)

  -- The loop ends within one turn more than the attempts.
  pub send_batch : Config → List Fields → Worker → S → Progress S
  send_batch c batch w s =
      turns (suc c.max_attempts) c (trying 1 batch none (record w { batches = w.batches + 1 }) s)
