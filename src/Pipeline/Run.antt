-- ===== src/Pipeline/Run.antt =====
-- pipeline/pipeline.go as a whole: callers that send, flush and close, and the worker, as a sequence
-- of steps. A step is a part that runs under one lock, so the steps of a batch in flight interleave
-- with every other operation. A batch that was taken waits at attempt 0 for `sendMu`; the batches get
-- it in the order in which they were taken.
pub mod Conserves
pub mod Bounds
use wlog.Base.{
  ℕ, zero, suc, ◌+◌, Bool, true, false, Option, none, some, List, [], ◌∷◌, ◌++◌, if◌then◌else◌,
  length,
}
use wlog.Value.{Fields}
use wlog.Pipeline.{Config, Worker, SendError, Outside}
use wlog.Pipeline.Options.{admits}
use wlog.Pipeline.Buffer.{started, send, take_batch_if_ready, take_all, close}
use wlog.Pipeline.Batch.{Progress, over, trying, turn}

-- A batch that was taken: the number of its next attempt, its events and its last error.
pub record Flying : Type 0 where
  pub attempt : ℕ
  pub batch : List Fields
  pub last_error : Option SendError

module _ {ℓ} (S : Type ℓ) where
  pub record Machine : Type ℓ where
    pub worker : Worker
    pub flight : List Flying
    pub outside : S

-- The steps: `look` is flushIfReady, `drain` is flushAll, which the worker calls once Close began,
-- and `work` is one turn of the loop of sendBatch, for the batch that has `sendMu`.
pub data Step : Type 0 where
  submit : ℕ → Fields → Step
  look : ℕ → Step
  flush : Step
  drain : Step
  shut : Step
  work : Step

-- sendBatch begins.
begin : Worker → Worker
begin w = record w { batches = w.batches + 1 }

module _ {ℓ} {S : Type ℓ} where
  pub start : S → Machine S
  start s = record { worker = started; flight = []; outside = s }

  -- An empty batch is not sent.
  launch : List Fields × Worker → Machine S → Machine S
  launch ([], w) m = record m { worker = w }
  launch (e ∷ es, w) m = record m {
    worker = w;
    flight = m.flight ++ record { attempt = 0; batch = e ∷ es; last_error = none } ∷ [];
  }

  -- A batch that is over leaves the flight.
  landed : Progress S → List Flying → Machine S
  landed (over w s) rest = record { worker = w; flight = rest; outside = s }
  landed (trying attempt batch err w s) rest = record {
    worker = w;
    flight = record { attempt = attempt; batch = batch; last_error = err } ∷ rest;
    outside = s;
  }

  worked : Outside S → Config → ℕ → Flying → List Flying → Machine S → Machine S
  unfolding landed begin
  worked o c zero f rest m = landed (trying 1 f.batch f.last_error (begin m.worker) m.outside) rest
  worked o c (suc n) f rest m =
      landed (turn o c (trying (suc n) f.batch f.last_error m.worker m.outside)) rest

  work_on : Outside S → Config → List Flying → Machine S → Machine S
  unfolding worked
  work_on o c [] m = m
  work_on o c (f ∷ rest) m = worked o c f.attempt f rest m

  pub step : Outside S → Config → Step → Machine S → Machine S
  unfolding launch work_on
  step o c (submit now event) m = record m { worker = send c now event m.worker }
  step o c (look now) m = launch (take_batch_if_ready c now m.worker) m
  step o c flush m = if m.worker.is_closed then m else launch (take_all m.worker) m
  step o c drain m = launch (take_all m.worker) m
  step o c shut m = record m { worker = close m.worker }
  step o c work m = work_on o c m.flight m

  pub run : Outside S → Config → List Step → Machine S → Machine S
  run o c [] m = m
  run o c (a ∷ later) m = run o c later (step o c a m)
