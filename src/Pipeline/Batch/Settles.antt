-- ===== src/Pipeline/Batch/Settles.antt =====
-- One attempt of sendBatch: which events of the batch it settles.
use wlog.Base.{
  ℕ, suc, ◌+◌, ◌-◌, ◌≤◌, ◌≡◌, refl, Bool, true, false, Option, none, some, List, [], ◌∷◌, arith,
  if◌then◌else◌, ltb, length, Bool-cases, inl, inr,
}
use wlog.Value.{Fields}
use wlog.Pipeline.{
  Config, Worker, Cause, SendError, PartialError, RetryError, Answer, delivered, failed, panicked,
  Outside,
}
use wlog.Pipeline.Buffer.{lose}
use wlog.Pipeline.Partial.{drop_partial}
use wlog.Pipeline.Partial.Chosen.{outcomes-length}
use wlog.Pipeline.Counts.{
  Settled, nothing-Settled, deliver-Settled, lose-Settled, both-Settled, drop_partial-Settled,
}
use wlog.Pipeline.Batch.{
  Progress, over, trying, Verdict, settled, hopeless, again, plain_error, rest_of_batch, by_retry,
  judge_by, judge, resume, go_on, answered, pause,
}

-- Of n events, all but `left` were settled on the way from w to w'.
pub record Part (w : Worker) (n : ℕ) (w' : Worker) (left : ℕ) : Type 0 where
  pub gone : ℕ
  pub moved : Settled gone w w'
  pub whole : gone + left ≡ n

untouched-Part : (w : Worker) (n : ℕ) → Part w n w n
untouched-Part w n = record { gone = 0; moved = nothing-Settled w; whole = omega arith }

then-Part : {w w' w'' : Worker} {n k j : ℕ} → Part w n w' k → Part w' k w'' j → Part w n w'' j
then-Part a b = record {
  gone = a.gone + b.gone;
  moved = both-Settled a.moved b.moved;
  whole = omega (arith, a.whole, b.whole);
}

lose-Part : (es : List Fields) (c : Cause) (w : Worker) → Part w (length es) (lose es c w) 0
lose-Part es c w = record { gone = length es; moved = lose-Settled es c w; whole = omega arith }

abbrev verdict_worker : Verdict → Worker
verdict_worker (settled w) = w
verdict_worker (hopeless batch w) = w
verdict_worker (again batch w) = w

abbrev verdict_left : Verdict → ℕ
verdict_left (settled w) = 0
verdict_left (hopeless batch w) = length batch
verdict_left (again batch w) = length batch

abbrev IsPart : Worker → ℕ → Verdict → Type 0
IsPart w n v = Part w n (verdict_worker v) (verdict_left v)

rest_of_batch-Part :
    (w : Worker) (n : ℕ) (x : List Fields × Worker)
    → Part w n x.1 (length x.0)
    → IsPart w n (rest_of_batch x)
unfolding rest_of_batch
rest_of_batch-Part w n ([], w') h = h
rest_of_batch-Part w n (e ∷ es, w') h = h

by_retry-Part :
    (o : Option RetryError) (batch : List Fields) (w : Worker)
    → IsPart w (length batch) (by_retry o batch w)
unfolding by_retry
by_retry-Part none batch w = untouched-Part w (length batch)
by_retry-Part (some re) batch w =
    elim re.retryable
      as (λ b. IsPart w (length batch) (if b then again batch w else hopeless batch w)) [
        | true ↦ untouched-Part w (length batch)
        | false ↦ untouched-Part w (length batch)
      ]

again_le :
    (batch : List Fields) (pe : PartialError) (err : SendError) (w : Worker)
    → length (drop_partial batch pe err w).0 ≤ length batch
unfolding drop_partial
again_le batch pe err w = omega (arith, outcomes-length pe batch)

judge_by-Part :
    (o : Option (Option PartialError)) (err : SendError) (batch : List Fields) (w : Worker)
    → IsPart w (length batch) (judge_by o err batch w)
unfolding judge_by
judge_by-Part none err batch w = by_retry-Part err.as_retry batch w
judge_by-Part (some none) err batch w = untouched-Part w (length batch)
judge_by-Part (some (some pe)) err batch w =
    rest_of_batch-Part w (length batch) (drop_partial batch pe err w) (record {
      gone = length batch - length (drop_partial batch pe err w).0;
      moved = drop_partial-Settled batch pe err w;
      whole = omega (arith, again_le batch pe err w);
    })

judge-Part :
    (err : SendError) (batch : List Fields) (w : Worker)
    → IsPart w (length batch) (judge err batch w)
unfolding judge
judge-Part err batch w = judge_by-Part err.as_partial err batch w

module _ {ℓ} {S : Type ℓ} where
  abbrev pub worker_of : Progress S → Worker
  worker_of (over w s) = w
  worker_of (trying attempt batch err w s) = w

  abbrev pub pending : Progress S → ℕ
  pending (over w s) = 0
  pending (trying attempt batch err w s) = length batch

  -- The attempt that comes next, and d once the batch is over.
  abbrev pub attempt_or : ℕ → Progress S → ℕ
  attempt_or d (over w s) = d
  attempt_or d (trying attempt batch err w s) = attempt

  -- One attempt: a part of the batch is settled, and the next attempt has the next number.
  pub record Tried (attempt : ℕ) (w : Worker) (n : ℕ) (p : Progress S) : Type ℓ where
    pub part : Part w n (worker_of p) (pending p)
    pub numbered : attempt_or (suc attempt) p ≡ suc attempt

  resume-Tried :
      (o : Outside S) (attempt : ℕ) (batch : List Fields) (err : SendError) (w w' : Worker) (n : ℕ)
      (x : S × Bool)
      → Part w n w' (length batch)
      → Tried attempt w n (resume o attempt batch err w' x)
  unfolding resume
  resume-Tried o attempt batch err w w' n (s, true) h = record { part = h; numbered = refl }
  resume-Tried o attempt batch err w w' n (s, false) h = record {
    part = then-Part h (lose-Part batch _ w');
    numbered = refl;
  }

  go_on-Tried :
      (o : Outside S) (c : Config) (attempt : ℕ) (err : SendError) (w : Worker) (n : ℕ)
      (v : Verdict) (s : S)
      → IsPart w n v
      → Tried attempt w n (go_on o c attempt err v s)
  unfolding go_on
  go_on-Tried o c attempt err w n (settled w') s h = record { part = h; numbered = refl }
  go_on-Tried o c attempt err w n (hopeless batch w') s h = record {
    part = then-Part h (lose-Part batch _ w');
    numbered = refl;
  }
  go_on-Tried o c attempt err w n (again batch w') s h =
      elim (Bool-cases (ltb attempt c.max_attempts)) [
        | inl more ↦ rw more (resume-Tried o attempt batch err w w' n (pause o c attempt err s) h)
        | inr last ↦ rw last (record { part = h; numbered = refl })
      ]

  pub answered-Tried :
      (o : Outside S) (c : Config) (attempt : ℕ) (batch : List Fields) (w : Worker) (x : S × Answer)
      → Tried attempt w (length batch) (answered o c attempt batch w x)
  unfolding answered
  answered-Tried o c attempt batch w (s, delivered) = record {
    part = record {
      gone = length batch;
      moved = deliver-Settled (length batch) w;
      whole = omega arith;
    };
    numbered = refl;
  }
  answered-Tried o c attempt batch w (s, failed err) =
      go_on-Tried o c attempt err w (length batch) (judge err batch w) s (judge-Part err batch w)
  answered-Tried o c attempt batch w (s, panicked) =
      go_on-Tried o c attempt plain_error w (length batch) (judge plain_error batch w) s
        (judge-Part plain_error batch w)
