-- ===== src/Pipeline/Batch/Turns.antt =====
-- One turn of the loop of sendBatch, at any attempt.
use wlog.Base.{
  ℕ, ◌+◌, ◌≡◌, refl, ◌∙◌, ap, Bool, true, false, Option, List, arith, leb, ltb, length, Bool-cases,
  inl, inr, if◌then◌else◌,
}
use wlog.Value.{Fields}
use wlog.Pipeline.{Config, Worker, unsent, SendError, Outside}
use wlog.Pipeline.Counts.{told, lose-Settled}
use wlog.Pipeline.Batch.{Progress, trying, turn, count_retry}
use wlog.Pipeline.Batch.Settles.{Tried, worker_of, pending, answered-Tried}

retried_when :
    (b : Bool) (w : Worker)
    → let v = if b then record w { retries = w.retries + 1 } else w in
      (v.sent ≡ w.sent) × (v.dropped ≡ w.dropped) × (v.reported ≡ w.reported) × (v.buf ≡ w.buf)
retried_when true w = (refl, refl, refl, refl)
retried_when false w = (refl, refl, refl, refl)

module _ {ℓ} {S : Type ℓ} where
  -- One turn of the loop, for a batch of n events.
  pub record Kept (n : ℕ) (w : Worker) (p : Progress S) : Type ℓ where
    pub counted : (worker_of p).sent + (worker_of p).dropped + pending p ≡ w.sent + w.dropped + n
    pub reported : (worker_of p).dropped + told w.reported ≡ w.dropped + told (worker_of p).reported
    pub same_buf : (worker_of p).buf ≡ w.buf

  Tried-Kept :
      (attempt n : ℕ) (w : Worker) (p : Progress S)
      → Tried attempt (count_retry attempt w) n p
      → Kept n w p
  unfolding count_retry
  Tried-Kept attempt n w p t =
      let (sent, dropped, reported, buf) = retried_when (ltb 1 attempt) w in
      let m = t.part.moved in
      record {
        counted = omega (arith, m.counted, t.part.whole, sent, dropped);
        reported = omega (arith, m.reported, dropped, ap told reported);
        same_buf = m.same_buf ∙ buf;
      }

  pub turn-Kept :
      (o : Outside S) (c : Config) (attempt : ℕ) (batch : List Fields) (err : Option SendError)
      (w : Worker) (s : S)
      → Kept (length batch) w (turn o c (trying attempt batch err w s))
  unfolding turn
  turn-Kept o c attempt batch err w s = elim (Bool-cases (leb attempt c.max_attempts)) [
    | inl more ↦ rw more (
        Tried-Kept attempt (length batch) w _
          (answered-Tried o c attempt batch (count_retry attempt w) (o.send_batch s batch)))
    | inr done ↦ rw done (
        let m = lose-Settled batch (unsent err) w in
        record { counted = omega (arith, m.counted); reported = m.reported; same_buf = m.same_buf })
  ]
