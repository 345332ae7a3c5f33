-- ===== src/Pipeline/Batch/Calls.antt =====
-- How often sendBatch of pipeline/pipeline.go calls the Sender.
use wlog.Base.{
  ℕ, suc, ◌+◌, ◌-◌, ◌≤◌, ◌≡◌, refl, ap, subst, ◌∙◌, min, Bool, true, false, Option, none, List,
  arith, if◌then◌else◌, leb, ltb, length, Bool-cases, inl, inr, leb→le, zero,
}
use wlog.Value.{Fields}
use wlog.Pipeline.{Config, Worker, unsent, SendError, Answer, delivered, failed, panicked, Outside}
use wlog.Pipeline.Counts.{lose-Settled}
use wlog.Pipeline.Backoff.{is_positive, curve, jitter_bound, retry_delay}
use wlog.Pipeline.Batch.{
  Progress, over, trying, Verdict, settled, hopeless, again, judge, plain_error, count_retry, draw,
  rest, pause, own_wait, resume, go_on, answered, turn, turns, send_batch,
}
use wlog.Pipeline.Batch.Settles.{Tried, answered-Tried}
use wlog.Pipeline.Batch.Ends.{Ended, send_batch_ends, count_retry_cases}

module _ {ℓ} {S : Type ℓ} (o : Outside S) where
  -- What stands outside, with a count of the calls of the Sender.
  abbrev pub counting : Outside (ℕ × S)
  counting = record {
    send_batch = λ x batch. let answer = o.send_batch x.1 batch in ((suc x.0, answer.0), answer.1);
    wait = λ x d. let waited = o.wait x.1 d in ((x.0, waited.0), waited.1);
    random = λ x n. let drawn = o.random x.1 n in ((x.0, drawn.0), drawn.1);
  }

  calls_of : Progress (ℕ × S) → ℕ
  calls_of (over w x) = x.0
  calls_of (trying attempt batch err w x) = x.0

  draw-calls : (c : Config) (attempt : ℕ) (x : ℕ × S) → (draw counting c attempt x).0.0 ≡ x.0
  unfolding draw
  draw-calls c attempt x =
      elim (is_positive (curve c attempt))
        as (λ b. (if b then counting.random x (jitter_bound c attempt) else (x, 0)).0.0 ≡ x.0) [
          | true ↦ refl
          | false ↦ refl
        ]

  rest-calls : (d : ℕ) (x : ℕ × S) → (rest counting d x).0.0 ≡ x.0
  unfolding rest
  rest-calls d x =
      elim (is_positive d) as (λ b. (if b then counting.wait x d else (x, true)).0.0 ≡ x.0) [
        | true ↦ refl
        | false ↦ refl
      ]

  pause-calls :
      (c : Config) (attempt : ℕ) (err : SendError) (x : ℕ × S)
      → (pause counting c attempt err x).0.0 ≡ x.0
  unfolding pause
  pause-calls c attempt err x =
      rest-calls (own_wait c err.as_retry (retry_delay c attempt (draw counting c attempt x).1))
        (draw counting c attempt x).0
      ∙ draw-calls c attempt x

  resume-calls :
      (attempt : ℕ) (batch : List Fields) (err : SendError) (w : Worker) (y : (ℕ × S) × Bool)
      → calls_of (resume counting attempt batch err w y) ≡ y.0.0
  unfolding resume calls_of
  resume-calls attempt batch err w (x, true) = refl
  resume-calls attempt batch err w (x, false) = refl

  go_on-calls :
      (c : Config) (attempt : ℕ) (err : SendError) (v : Verdict) (x : ℕ × S)
      → calls_of (go_on counting c attempt err v x) ≡ x.0
  unfolding go_on calls_of
  go_on-calls c attempt err (settled w) x = refl
  go_on-calls c attempt err (hopeless batch w) x = refl
  go_on-calls c attempt err (again batch w) x =
      elim (ltb attempt c.max_attempts)
        as (λ b.
          calls_of (
            if b
            then resume counting attempt batch err w (pause counting c attempt err x)
            else trying (suc attempt) batch (Option.some err) w x)
          ≡ x.0) [
            | true ↦
                resume-calls attempt batch err w (pause counting c attempt err x)
                ∙ pause-calls c attempt err x
            | false ↦ refl
          ]

  answered-calls :
      (c : Config) (attempt : ℕ) (batch : List Fields) (w : Worker) (x : ℕ × S) (a : Answer)
      → calls_of (answered counting c attempt batch w (x, a)) ≡ x.0
  unfolding answered calls_of
  answered-calls c attempt batch w x delivered = refl
  answered-calls c attempt batch w x (failed err) = go_on-calls c attempt err (judge err batch w) x
  answered-calls c attempt batch w x panicked =
      go_on-calls c attempt plain_error (judge plain_error batch w) x

  -- The calls so far, the attempt that comes next and the retries that are counted go together.
  CallsKept : Config → Worker → Progress (ℕ × S) → Type 0
  CallsKept c w (over v x) =
      (min 1 c.max_attempts ≤ x.0) × (x.0 ≤ c.max_attempts) × (v.retries ≡ w.retries + (x.0 - 1))
  CallsKept c w (trying attempt batch err v x) =
      (attempt ≡ suc x.0) × (x.0 ≤ c.max_attempts) × (v.retries ≡ w.retries + (x.0 - 1))

  answered-CallsKept :
      (c : Config) (w u : Worker) (k n : ℕ) (p : Progress (ℕ × S))
      → calls_of p ≡ suc k
      → Tried (suc k) u n p
      → u.retries ≡ w.retries + k
      → suc k ≤ c.max_attempts
      → CallsKept c w p
  unfolding CallsKept calls_of
  answered-CallsKept c w u k n (over v x) called t counted bounded =
      let m = t.part.moved in
      (
        omega (arith, called, bounded),
        omega (arith, called, bounded),
        omega (arith, called, m.same_retries, counted),
      )
  answered-CallsKept c w u k n (trying a batch err v x) called t counted bounded =
      let m = t.part.moved in
      (
        omega (arith, called, t.numbered),
        omega (arith, called, bounded),
        omega (arith, called, m.same_retries, counted),
      )

  retries-count_retry :
      (k : ℕ) (v w : Worker)
      → v.retries ≡ w.retries + (k - 1)
      → (count_retry (suc k) v).retries ≡ w.retries + k
  retries-count_retry k v w h = elim (count_retry_cases (suc k) v) [
    | inl (later, e) ↦ omega (arith, ap (λ u. u.retries) e, h, later)
    | inr (first, e) ↦ omega (arith, ap (λ u. u.retries) e, h, first)
  ]

  turn-CallsKept :
      (c : Config) (w : Worker) (p : Progress (ℕ × S))
      → CallsKept c w p
      → CallsKept c w (turn counting c p)
  unfolding turn CallsKept
  turn-CallsKept c w (over v x) kept = kept
  turn-CallsKept c w (trying attempt batch err v x) (next, bounded, counted) =
      elim (Bool-cases (leb attempt c.max_attempts)) [
        | inl more ↦
            let answer = o.send_batch x.1 batch in
            let u = count_retry attempt v in
            let fits = leb→le _ _ more in
            let counts : (count_retry attempt v).retries ≡ w.retries + x.0 =
              ap (λ a. (count_retry a v).retries) next ∙ retries-count_retry x.0 v w counted in
            rw more (
              answered-CallsKept c w u x.0 (length batch) _
                (answered-calls c attempt batch u (suc x.0, answer.0) answer.1)
                (subst
                  (λ a.
                    Tried a u (length batch)
                      (answered counting c attempt batch u ((suc x.0, answer.0), answer.1)))
                  next (answered-Tried counting c attempt batch u ((suc x.0, answer.0), answer.1)))
                counts (omega (arith, next, fits)))
        | inr done ↦
            let past : leb attempt c.max_attempts ≡ false = done in
            let m = lose-Settled batch (unsent err) v in
            rw done
              (ground (arith, past, next, bounded), bounded, omega (arith, m.same_retries, counted))
      ]

  turns-CallsKept :
      (n : ℕ) (c : Config) (w : Worker) (p : Progress (ℕ × S))
      → CallsKept c w p
      → CallsKept c w (turns counting n c p)
  unfolding turns
  turns-CallsKept zero c w p kept = kept
  turns-CallsKept (suc n) c w p kept =
      turns-CallsKept n c w (turn counting c p) (turn-CallsKept c w p kept)

  -- What the calls of the Sender for a batch come to.
  pub record Called (c : Config) (w w' : Worker) (calls : ℕ) : Type 0 where
    pub once : min 1 c.max_attempts ≤ calls
    pub at_most : calls ≤ c.max_attempts
    pub retried : w'.retries ≡ w.retries + (calls - 1)

  -- Whatever the Sender, the waits and the jitter do, sendBatch ends: every event of the batch is
  -- counted once, as sent or as dropped, each dropped one is in a drop report, the buffer stays, one
  -- batch more is counted, the Sender is called at most MaxAttempts times, at least once where that is
  -- not zero, and each call after the first is counted as one retry.
  pub send_batch-Called :
      (c : Config) (batch : List Fields) (w : Worker) (s : S)
      → (w' : Worker) × (calls : ℕ) × (s' : S) × (send_batch counting c batch w (0, s)
          ≡ over w' (calls, s'))
        × Ended c batch w w'
        × Called c w w' calls
  unfolding send_batch CallsKept
  send_batch-Called c batch w s =
      let (w', x, e, ended) = send_batch_ends counting c batch w (0, s) in
      let kept = subst (CallsKept c w) e (
        turns-CallsKept (suc c.max_attempts) c w
          (trying 1 batch none (record w { batches = w.batches + 1 }) (0, s))
          (refl, omega arith, omega arith)) in
      (w', x.0, x.1, e, ended, record { once = kept.0; at_most = kept.1; retried = kept.2 })
