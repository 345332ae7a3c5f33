-- ===== src/Pipeline/Batch/Ends.antt =====
-- The loop of sendBatch: what every turn keeps, and that it ends.
use wlog.Base.{
  ltb→lt, ltb-false→le, ◌⊎◌, ℕ, zero, suc, ◌+◌, ◌-◌, ◌≤◌, ◌<◌, ◌≡◌, refl, ap, ◌∙◌, Bool, true,
  false, Option, none, List, arith, if◌then◌else◌, leb, ltb, length, Bool-cases, inl, inr, leb→le,
}
use wlog.Value.{Fields}
use wlog.Pipeline.{Config, Worker, unsent, SendError, Outside}
use wlog.Pipeline.Counts.{told, lose-Settled}
use wlog.Pipeline.Batch.{Progress, over, trying, count_retry, answered, turn, turns, send_batch}
use wlog.Pipeline.Batch.Settles.{Tried, worker_of, pending, attempt_or, answered-Tried}

-- What a batch that is over leaves behind.
pub record Ended (c : Config) (batch : List Fields) (w w' : Worker) : Type 0 where
  pub counted : w'.sent + w'.dropped ≡ w.sent + w.dropped + length batch
  pub reported : w'.dropped + told w.reported ≡ w.dropped + told w'.reported
  pub same_buf : w'.buf ≡ w.buf
  pub one_batch : w'.batches ≡ w.batches + 1
  pub retried : w'.retries ≤ w.retries + (c.max_attempts - 1)

pub count_retry_cases :
    (attempt : ℕ) (w : Worker)
    → ((1 < attempt) × (count_retry attempt w ≡ record w { retries = w.retries + 1 }))
      ⊎ ((attempt ≤ 1) × (count_retry attempt w ≡ w))
unfolding count_retry
count_retry_cases attempt w = elim (Bool-cases (ltb 1 attempt)) [
  | inl more ↦
      inl (ltb→lt _ _ more, ap (λ b. if b then record w { retries = w.retries + 1 } else w) more)
  | inr first ↦ inr (
    ltb-false→le _ _ first,
    ap (λ b. if b then record w { retries = w.retries + 1 } else w) first,
  )
]

module _ {ℓ} {S : Type ℓ} where
  -- What holds at the head of the loop and at its end, of a batch of n events that the worker w
  -- began.
  record Going (c : Config) (w : Worker) (n : ℕ) (p : Progress S) : Type ℓ where
    counted : (worker_of p).sent + (worker_of p).dropped + pending p ≡ w.sent + w.dropped + n
    reported : (worker_of p).dropped + told w.reported ≡ w.dropped + told (worker_of p).reported
    same_buf : (worker_of p).buf ≡ w.buf
    one_batch : (worker_of p).batches ≡ w.batches + 1
    bounded : attempt_or (suc c.max_attempts) p ≤ suc c.max_attempts
    retried : (worker_of p).retries ≤ w.retries + (attempt_or (suc c.max_attempts) p - 2)

  -- An attempt within the limit that starts at worker v keeps the invariant.
  Tried-Going :
      (c : Config) (w : Worker) (n attempt : ℕ) (batch : List Fields) (v : Worker) (p : Progress S)
      → v.sent + v.dropped + length batch ≡ w.sent + w.dropped + n
      → v.dropped + told w.reported ≡ w.dropped + told v.reported
      → v.buf ≡ w.buf
      → v.batches ≡ w.batches + 1
      → v.retries ≤ w.retries + (attempt - 1)
      → attempt ≤ c.max_attempts
      → Tried attempt v (length batch) p
      → Going c w n p
  Tried-Going c w n attempt batch v (over v' s) counted reported buf batches retried bounded t =
      let m = t.part.moved in
      record {
        counted = omega (arith, m.counted, t.part.whole);
        reported = omega (arith, m.reported);
        same_buf = m.same_buf ∙ buf;
        one_batch = m.same_batches ∙ batches;
        bounded = omega arith;
        retried = omega (arith, m.same_retries);
      }
  Tried-Going c w n attempt batch v (trying a b e v' s) counted reported buf batches retried bounded
        t =
      let m = t.part.moved in
      record {
        counted = omega (arith, m.counted, t.part.whole);
        reported = omega (arith, m.reported);
        same_buf = m.same_buf ∙ buf;
        one_batch = m.same_batches ∙ batches;
        bounded = omega (arith, t.numbered);
        retried = omega (arith, m.same_retries, t.numbered);
      }

  turn_trying-Going :
      (o : Outside S) (c : Config) (w : Worker) (n attempt : ℕ) (batch : List Fields)
      (err : Option SendError) (v : Worker) (s : S)
      → Going c w n (trying attempt batch err v s)
      → Going c w n (turn o c (trying attempt batch err v s))
  unfolding turn
  turn_trying-Going o c w n attempt batch err v s g =
      elim (Bool-cases (leb attempt c.max_attempts)) [
        | inl more ↦ rw more (elim (count_retry_cases attempt v) [
          | inl (later, e) ↦
              Tried-Going c w n attempt batch (count_retry attempt v) _ (cc (e, g.counted))
                (cc (e, g.reported)) (ap (λ u. u.buf) e ∙ g.same_buf)
                (ap (λ u. u.batches) e ∙ g.one_batch)
                (omega (arith, ap (λ u. u.retries) e, g.retried)) (leb→le _ _ more)
                (answered-Tried o c attempt batch (count_retry attempt v) (o.send_batch s batch))
          | inr (first, e) ↦
              Tried-Going c w n attempt batch (count_retry attempt v) _ (cc (e, g.counted))
                (cc (e, g.reported)) (ap (λ u. u.buf) e ∙ g.same_buf)
                (ap (λ u. u.batches) e ∙ g.one_batch)
                (omega (arith, ap (λ u. u.retries) e, g.retried)) (leb→le _ _ more)
                (answered-Tried o c attempt batch (count_retry attempt v) (o.send_batch s batch))
        ])
        | inr done ↦ rw done (
            let m = lose-Settled batch (unsent err) v in
            record {
              counted = omega (arith, m.counted, g.counted);
              reported = omega (arith, m.reported, g.reported);
              same_buf = m.same_buf ∙ g.same_buf;
              one_batch = m.same_batches ∙ g.one_batch;
              bounded = omega arith;
              retried = omega (arith, m.same_retries, g.retried, g.bounded);
            })
      ]

  turn-Going :
      (o : Outside S) (c : Config) (w : Worker) (n : ℕ) (p : Progress S)
      → Going c w n p
      → Going c w n (turn o c p)
  unfolding turn
  turn-Going o c w n (over v s) g = g
  turn-Going o c w n (trying attempt batch err v s) g =
      turn_trying-Going o c w n attempt batch err v s g

  abbrev is_over : Progress S → Bool
  is_over (over w s) = true
  is_over (trying attempt batch err w s) = false

  -- A turn comes nearer to the end: the number of the next attempt grows, or the batch is over.
  turn_nearer :
      (o : Outside S) (c : Config) (attempt : ℕ) (batch : List Fields) (err : Option SendError)
      (v : Worker) (s : S) (d : ℕ)
      → suc attempt ≤ d
      → suc attempt ≤ attempt_or d (turn o c (trying attempt batch err v s))
  unfolding turn
  turn_nearer o c attempt batch err v s d h = elim (Bool-cases (leb attempt c.max_attempts)) [
    | inl more ↦ rw more (
        let t = answered-Tried o c attempt batch (count_retry attempt v) (o.send_batch s batch) in
        nearer attempt d (answered o c attempt batch (count_retry attempt v) (o.send_batch s batch))
          h t.numbered)
    | inr done ↦ rw done h
  ]
    where
      nearer :
          (a d : ℕ) (p : Progress S)
          → suc a ≤ d
          → attempt_or (suc a) p ≡ suc a
          → suc a ≤ attempt_or d p
      nearer a d (over w s) h e = h
      nearer a d (trying b batch err w s) h e = omega (arith, e)

  turns_over :
      (o : Outside S) (n : ℕ) (c : Config) (w : Worker) (k : ℕ) (p : Progress S)
      → Going c w k p
      → suc (suc c.max_attempts) ≤ attempt_or (suc (suc c.max_attempts)) p + n
      → (is_over (turns o n c p) ≡ true) × Going c w k (turns o n c p)
  unfolding turns turn
  turns_over o zero c w k (over v s) g h = (refl, g)
  turns_over o zero c w k (trying attempt batch err v s) g h = absurd (omega (arith, g.bounded))
  turns_over o (suc n) c w k (over v s) g h = turns_over o n c w k (over v s) g (omega arith)
  turns_over o (suc n) c w k (trying attempt batch err v s) g h =
      turns_over o n c w k (turn o c (trying attempt batch err v s))
        (turn_trying-Going o c w k attempt batch err v s g)
        (omega (
          arith,
          h,
          g.bounded,
          turn_nearer o c attempt batch err v s (suc (suc c.max_attempts))
              (omega (arith, g.bounded)),
        ))

  ended :
      (c : Config) (batch : List Fields) (w : Worker) (p : Progress S)
      → is_over p ≡ true
      → Going c w (length batch) p
      → (w' : Worker) × (s' : S) × (p ≡ over w' s') × Ended c batch w w'
  ended c batch w (over w' s') done g = (
    w',
    s',
    refl,
    record {
      counted = omega (arith, g.counted);
      reported = g.reported;
      same_buf = g.same_buf;
      one_batch = g.one_batch;
      retried = omega (arith, g.retried);
    },
  )
  ended c batch w (trying attempt b err v s) done g = cc

  -- Whatever the Sender, the waits and the jitter do, sendBatch ends: every event of the batch is
  -- counted once, as sent or as dropped, each dropped one is in a drop report, the buffer stays, one
  -- batch more is counted, and at most MaxAttempts - 1 retries are counted.
  pub send_batch_ends :
      (o : Outside S) (c : Config) (batch : List Fields) (w : Worker) (s : S)
      → (w' : Worker) × (s' : S) × (send_batch o c batch w s ≡ over w' s') × Ended c batch w w'
  unfolding send_batch
  send_batch_ends o c batch w s =
      let begun : Going c w (length batch)
          (trying 1 batch none (record w { batches = w.batches + 1 }) s) =
        record {
          counted = refl;
          reported = refl;
          same_buf = refl;
          one_batch = refl;
          bounded = omega arith;
          retried = omega arith;
        } in
      let (done, g) = turns_over o (suc c.max_attempts) c w (length batch) _ begun (omega arith) in
      ended c batch w _ done g
