-- ===== src/Pipeline/Buffer.antt =====
-- pipeline/pipeline.go: Send and the ways in which a batch leaves the buffer. A function here is
-- the part of the source's that runs with `mu` held; `now` is what the clock says.
pub mod Keeps
pub mod Bounds
pub mod Due
use wlog.Base.{
  ℕ, suc, ◌+◌, ◌-◌, ◌≤◌, ◌<◌, ◌≡◌, refl, ap, max, Bool, true, false, ◌||◌, Option, none, some, List,
  [], ◌∷◌, ◌++◌, arith, if◌then◌else◌, leb, ltb, length, take, drop, length-append, length-take,
  length-drop, inl, inr, ◌⊎◌, Bool-cases, ltb→lt, ltb-false→le, leb→le,
}
use wlog.Value.{Fields}
use wlog.Pipeline.{Config, Worker, Cause, full, closed}
use wlog.Pipeline.Options.{admits, millisecond, IsUsable}

abbrev pub started : Worker
started = record {
  buf = [];
  oldest_time = 0;
  is_closed = false;
  sent = 0;
  dropped = 0;
  retries = 0;
  batches = 0;
  reported = [];
}

-- The counter and the report, which every drop does together.
unfoldable pub lose : List Fields → Cause → Worker → Worker
lose events cause w = record w {
  dropped = w.dropped + length events;
  reported = w.reported ++ (events, cause) ∷ [];
}

unfoldable pub deliver : ℕ → Worker → Worker
deliver n w = record w { sent = w.sent + n }

-- The clock is read when the buffer is empty.
stamp : ℕ → List Fields → ℕ → ℕ
stamp now [] oldest = now
stamp now (e ∷ es) oldest = oldest

push : ℕ → Fields → Worker → Worker
unfolding stamp
push now event w = record w {
  buf = w.buf ++ event ∷ [];
  oldest_time = stamp now w.buf w.oldest_time;
}

-- A full buffer loses its oldest event, which is reported after the new one is in.
push_full : ℕ → Fields → List Fields → Worker → Worker
unfolding push
push_full now event [] w = push now event w
push_full now event (oldest ∷ rest) w =
    lose (oldest ∷ []) full (record w { buf = rest ++ event ∷ [] })

pub enqueue : Config → ℕ → Fields → Worker → Worker
unfolding push_full push
enqueue c now event w =
    if leb c.max_buffer (length w.buf) then push_full now event w.buf w else push now event w

unfoldable pub send : Config → ℕ → Fields → Worker → Worker
send c now event w =
    if admits c event
    then if w.is_closed then lose (event ∷ []) closed w else enqueue c now event w
    else w

-- A full batch, or a buffer whose oldest event waited for the batch interval.
pub is_ready : Config → ℕ → Worker → Bool
is_ready c now w = leb c.batch_size (length w.buf) || leb c.batch_interval (now - w.oldest_time)

pub cut : Config → Worker → List Fields × Worker
cut c w =
    if ltb c.batch_size (length w.buf)
    then (take c.batch_size w.buf, record w { buf = drop c.batch_size w.buf })
    else (w.buf, record w { buf = [] })

-- An empty batch stands for nil.
take_ready : Config → ℕ → List Fields → Worker → List Fields × Worker
take_ready c now [] w = ([], w)
take_ready c now (e ∷ es) w = if is_ready c now w then cut c w else ([], w)

unfoldable pub take_batch_if_ready : Config → ℕ → Worker → List Fields × Worker
unfolding take_ready
take_batch_if_ready c now w = take_ready c now w.buf w

-- What flushAll and Flush take.
unfoldable pub take_all : Worker → List Fields × Worker
take_all w = (w.buf, record w { buf = [] })

wake_in : Config → ℕ → List Fields → Worker → ℕ
wake_in c now [] w = c.batch_interval
wake_in c now (e ∷ es) w =
    if leb c.batch_size (length w.buf)
    then millisecond
    else max (c.batch_interval - (now - w.oldest_time)) millisecond

unfoldable pub next_wake : Config → ℕ → Worker → ℕ
unfolding wake_in
next_wake c now w = wake_in c now w.buf w

unfoldable pub close : Worker → Worker
close w = record w { is_closed = true }
