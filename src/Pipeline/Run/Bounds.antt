-- ===== src/Pipeline/Run/Bounds.antt =====
-- The buffer of a pipeline never outgrows its limit.
use wlog.Base.{ℕ, zero, suc, ◌≤◌, ap, true, false, List, [], ◌∷◌, arith, if◌then◌else◌, length}
use wlog.Value.{Fields}
use wlog.Pipeline.{Config, Worker, Outside}
use wlog.Pipeline.Buffer.{take_all, close}
use wlog.Pipeline.Buffer.Bounds.{send-length}
use wlog.Pipeline.Buffer.Keeps.{Split, take_all-Split, take_batch_if_ready-Split}
use wlog.Pipeline.Batch.{Progress, over, trying}
use wlog.Pipeline.Batch.Turns.{Kept, turn-Kept}
use wlog.Pipeline.Run.{
  Flying, Machine, Step, submit, look, flush, drain, shut, work, start, launch, landed, begin,
  worked, work_on, step, run,
}

module _ {ℓ} {S : Type ℓ} where
  IsWithin : ℕ → Machine S → Type 0
  IsWithin n m = length m.worker.buf ≤ n

  launch-IsWithin :
      (n : ℕ) (m : Machine S) (x : List Fields × Worker)
      → Split m.worker x
      → IsWithin n m
      → IsWithin n (launch x m)
  unfolding IsWithin launch
  launch-IsWithin n m ([], w) s h = omega (arith, s.whole)
  launch-IsWithin n m (e ∷ es, w) s h = omega (arith, s.whole)

  landed-IsWithin :
      (n k : ℕ) (m : Machine S) (p : Progress S) (rest : List Flying)
      → Kept k m.worker p
      → IsWithin n m
      → IsWithin n (landed p rest)
  unfolding IsWithin landed
  landed-IsWithin n k m (over w s) rest t h = omega (arith, ap length t.same_buf)
  landed-IsWithin n k m (trying attempt batch err w s) rest t h =
      omega (arith, ap length t.same_buf)

  worked-IsWithin :
      (o : Outside S) (c : Config) (n attempt : ℕ) (f : Flying) (rest : List Flying) (m : Machine S)
      → IsWithin n m
      → IsWithin n (worked o c attempt f rest m)
  unfolding worked IsWithin landed begin
  worked-IsWithin o c n zero f rest m h = h
  worked-IsWithin o c n (suc k) f rest m h =
      landed-IsWithin n (length f.batch) m _ rest
        (turn-Kept o c (suc k) f.batch f.last_error m.worker m.outside) h

  work_on-IsWithin :
      (o : Outside S) (c : Config) (n : ℕ) (flight : List Flying) (m : Machine S)
      → IsWithin n m
      → IsWithin n (work_on o c flight m)
  unfolding work_on
  work_on-IsWithin o c n [] m h = h
  work_on-IsWithin o c n (f ∷ rest) m h = worked-IsWithin o c n f.attempt f rest m h

  step-IsWithin :
      (o : Outside S) (c : Config) (a : Step) (m : Machine S)
      → 1 ≤ c.max_buffer
      → IsWithin c.max_buffer m
      → IsWithin c.max_buffer (step o c a m)
  unfolding step IsWithin close
  step-IsWithin o c (submit now e) m room h = send-length c now e m.worker room h
  step-IsWithin o c (look now) m room h =
      launch-IsWithin _ m _ (take_batch_if_ready-Split c now m.worker) h
  step-IsWithin o c flush m room h =
      elim m.worker.is_closed
        as (λ b. IsWithin c.max_buffer (if b then m else launch (take_all m.worker) m)) [
          | true ↦ h
          | false ↦ launch-IsWithin _ m _ (take_all-Split m.worker) h
        ]
  step-IsWithin o c drain m room h = launch-IsWithin _ m _ (take_all-Split m.worker) h
  step-IsWithin o c shut m room h = h
  step-IsWithin o c work m room h = work_on-IsWithin o c _ m.flight m h

  run-IsWithin :
      (o : Outside S) (c : Config) (steps : List Step) (m : Machine S)
      → 1 ≤ c.max_buffer
      → IsWithin c.max_buffer m
      → IsWithin c.max_buffer (run o c steps m)
  unfolding run
  run-IsWithin o c [] m room h = h
  run-IsWithin o c (a ∷ later) m room h =
      run-IsWithin o c later (step o c a m) room (step-IsWithin o c a m room h)

  -- With a MaxBuffer of at least one, the buffer of a new pipeline never holds more than MaxBuffer
  -- events, whatever callers and worker do.
  pub run-bounded :
      (o : Outside S) (c : Config) (s : S) (steps : List Step)
      → 1 ≤ c.max_buffer
      → length (run o c steps (start s)).worker.buf ≤ c.max_buffer
  unfolding IsWithin start
  run-bounded o c s steps room = run-IsWithin o c steps (start s) room (omega arith)
