-- ===== src/Pipeline/Buffer/Due.antt =====
-- The worker wakes in time for a batch.
use wlog.Base.{
  ℕ, ◌+◌, ◌-◌, ◌≤◌, ◌≡◌, refl, ap, max, Bool, true, false, ◌||◌, List, [], ◌∷◌, arith,
  if◌then◌else◌, leb, ltb, length, length-take, Bool-cases, inl, inr, ltb→lt, ltb-false→le,
}
use wlog.Value.{Fields}
use wlog.Pipeline.{Config, Worker}
use wlog.Pipeline.Options.{millisecond}
use wlog.Pipeline.Buffer.{is_ready, cut, take_ready, take_batch_if_ready, wake_in, next_wake}

-- A batch that may leave: not empty, and no larger than a batch may be.
pub IsBatch : Config → List Fields → Type 0
IsBatch c batch = (1 ≤ length batch) × (length batch ≤ c.batch_size)

cut-IsBatch :
    (c : Config) (w : Worker) → 1 ≤ c.batch_size → 1 ≤ length w.buf → IsBatch c (cut c w).0
unfolding cut IsBatch
cut-IsBatch c w size some_event = elim (Bool-cases (ltb c.batch_size (length w.buf))) [
  | inl more ↦ rw more (
    omega (arith, length-take c.batch_size w.buf, ltb→lt _ _ more),
    omega (arith, length-take c.batch_size w.buf),
  )
  | inr fits ↦ rw fits (some_event, ltb-false→le _ _ fits)
]

-- The worker is ready once it slept for as long as nextWake says.
ready_on_time :
    (size interval len now oldest : ℕ)
    → oldest ≤ now
    → leb size len
        || leb interval (
            now
            + (if leb size len then millisecond else max (interval - (now - oldest)) millisecond)
            - oldest)
      ≡ true
ready_on_time size interval len now oldest h = ground arith

is_ready-wake :
    (c : Config) (now : ℕ) (w : Worker)
    → w.oldest_time ≤ now
    → is_ready c
        (now
          + (if leb c.batch_size (length w.buf)
              then millisecond
              else max (c.batch_interval - (now - w.oldest_time)) millisecond))
        w
      ≡ true
unfolding is_ready
is_ready-wake c now w clock =
    ready_on_time c.batch_size c.batch_interval (length w.buf) now w.oldest_time clock

cut_when :
    (ready : Bool) (c : Config) (w : Worker)
    → ready ≡ true
    → IsBatch c (cut c w).0
    → IsBatch c (if ready then cut c w else ([], w)).0
cut_when true c w h batch = batch
cut_when false c w h batch = cc

take_ready-IsBatch :
    (c : Config) (now : ℕ) (buf : List Fields) (w : Worker)
    → w.buf ≡ buf
    → 1 ≤ c.batch_size
    → w.oldest_time ≤ now
    → 1 ≤ length buf
    → IsBatch c (take_ready c (now + wake_in c now buf w) buf w).0
unfolding take_ready wake_in
take_ready-IsBatch c now [] w same size clock some_event = absurd (omega arith)
take_ready-IsBatch c now (e ∷ es) w same size clock some_event =
    cut_when (is_ready c _ w) c w (is_ready-wake c now w clock)
      (cut-IsBatch c w size (omega (arith, ap length same)))

-- A worker that finds events in its buffer, once the time that nextWake says has passed and the
-- buffer is as it was, takes a batch of at least one event and at most BatchSize of them.
pub take_batch_if_ready-next_wake :
    (c : Config) (now : ℕ) (w : Worker)
    → 1 ≤ c.batch_size
    → w.oldest_time ≤ now
    → 1 ≤ length w.buf
    → IsBatch c (take_batch_if_ready c (now + next_wake c now w) w).0
unfolding take_batch_if_ready next_wake
take_batch_if_ready-next_wake c now w size clock some_event =
    take_ready-IsBatch c now w.buf w refl size clock some_event
