-- ===== src/Pipeline/Buffer/Keeps.antt =====
-- Send and the takes of a batch keep every event and the bounds of the buffer.
use wlog.Base.{
  ℕ, ◌+◌, ◌≤◌, ◌≡◌, refl, ap, Bool, true, false, List, [], ◌∷◌, arith, if◌then◌else◌, leb, ltb,
  length, length-append, length-take, length-drop, Bool-cases, inl, inr, ltb→lt,
}
use wlog.Value.{Fields}
use wlog.Pipeline.{Config, Worker, Cause, full, closed}
use wlog.Pipeline.Options.{admits}
use wlog.Pipeline.Buffer.{
  lose, push, push_full, enqueue, send, is_ready, cut, take_ready, take_batch_if_ready, take_all,
}
use wlog.Pipeline.Counts.{told, told-append}

-- From w to w', one event came in: it is buffered or dropped, or pushed an older one out.
pub record Took (n : ℕ) (w w' : Worker) : Type 0 where
  pub counted : w'.sent + w'.dropped + length w'.buf ≡ w.sent + w.dropped + length w.buf + n
  pub reported : w'.dropped + told w.reported ≡ w.dropped + told w'.reported

-- A lowered limit is no case of its own: a buffer that is over it loses one event per new one.
pub IsWithin : Config → Worker → Type 0
IsWithin c w = length w.buf ≤ c.max_buffer

push-Took : (now : ℕ) (e : Fields) (w : Worker) → Took 1 w (push now e w)
unfolding push
push-Took now e w = record {
  counted = omega (arith, length-append w.buf (e ∷ []));
  reported = refl;
}

push_full-Took :
    (now : ℕ) (e : Fields) (buf : List Fields) (w : Worker)
    → w.buf ≡ buf
    → Took 1 w (push_full now e buf w)
unfolding push_full lose
push_full-Took now e [] w same = push-Took now e w
push_full-Took now e (old ∷ rest) w same = record {
  counted = omega (arith, length-append rest (e ∷ []), ap length same);
  reported = omega (arith, told-append w.reported (old ∷ []) full);
}

enqueue-Took : (c : Config) (now : ℕ) (e : Fields) (w : Worker) → Took 1 w (enqueue c now e w)
unfolding enqueue
enqueue-Took c now e w = elim (Bool-cases (leb c.max_buffer (length w.buf))) [
  | inl no_room ↦ rw no_room (push_full-Took now e w.buf w refl)
  | inr room ↦ rw room (push-Took now e w)
]

lose-Took : (e : Fields) (cause : Cause) (w : Worker) → Took 1 w (lose (e ∷ []) cause w)
unfolding lose
lose-Took e cause w = record {
  counted = omega arith;
  reported = omega (arith, told-append w.reported (e ∷ []) cause);
}

sent_when :
    (shut : Bool) (c : Config) (now : ℕ) (e : Fields) (w : Worker)
    → Took 1 w (if shut then lose (e ∷ []) closed w else enqueue c now e w)
sent_when true c now e w = lose-Took e closed w
sent_when false c now e w = enqueue-Took c now e w

pub send-Took :
    (c : Config) (now : ℕ) (e : Fields) (w : Worker)
    → Took (if admits c e then 1 else 0) w (send c now e w)
unfolding send
send-Took c now e w = elim (Bool-cases (admits c e)) [
  | inl passes ↦ rw passes (sent_when w.is_closed c now e w)
  | inr filtered ↦ rw filtered (record { counted = omega arith; reported = refl })
]

-- A batch and the worker that is left once it was taken.
pub record Split (w : Worker) (x : List Fields × Worker) : Type 0 where
  pub whole : length x.0 + length x.1.buf ≡ length w.buf
  pub same_sent : x.1.sent ≡ w.sent
  pub same_dropped : x.1.dropped ≡ w.dropped
  pub same_reported : x.1.reported ≡ w.reported

pub take_all-Split : (w : Worker) → Split w (take_all w)
unfolding take_all
take_all-Split w = record {
  whole = omega arith;
  same_sent = refl;
  same_dropped = refl;
  same_reported = refl;
}

none_taken : (w : Worker) → Split w ([], w)
none_taken w = record {
  whole = omega arith;
  same_sent = refl;
  same_dropped = refl;
  same_reported = refl;
}

cut-Split : (c : Config) (w : Worker) → Split w (cut c w)
unfolding cut
cut-Split c w = elim (Bool-cases (ltb c.batch_size (length w.buf))) [
  | inl more ↦ rw more (record {
    whole =
        omega
          (arith, length-take c.batch_size w.buf, length-drop c.batch_size w.buf, ltb→lt _ _ more);
    same_sent = refl;
    same_dropped = refl;
    same_reported = refl;
  })
  | inr fits ↦
      rw fits (record {
        whole = omega arith;
        same_sent = refl;
        same_dropped = refl;
        same_reported = refl;
      })
]

taken_when : (ready : Bool) (c : Config) (w : Worker) → Split w (if ready then cut c w else ([], w))
taken_when true c w = cut-Split c w
taken_when false c w = none_taken w

take_ready-Split :
    (c : Config) (now : ℕ) (buf : List Fields) (w : Worker) → Split w (take_ready c now buf w)
unfolding take_ready
take_ready-Split c now [] w = none_taken w
take_ready-Split c now (e ∷ es) w = taken_when (is_ready c now w) c w

pub take_batch_if_ready-Split :
    (c : Config) (now : ℕ) (w : Worker) → Split w (take_batch_if_ready c now w)
unfolding take_batch_if_ready
take_batch_if_ready-Split c now w = take_ready-Split c now w.buf w
