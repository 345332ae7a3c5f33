-- ===== src/Pipeline/Run/Conserves.antt =====
-- A run of the pipeline loses no event silently.
use wlog.Base.{
  ℕ, zero, suc, ◌+◌, ◌≡◌, refl, ap, sym, ◌∙◌, Bool, true, false, none, List, [], ◌∷◌, ◌++◌, arith,
  if◌then◌else◌, length,
}
use wlog.Value.{Fields}
use wlog.Pipeline.{Config, Worker, Outside}
use wlog.Pipeline.Options.{admits}
use wlog.Pipeline.Buffer.{take_all, close}
use wlog.Pipeline.Buffer.Keeps.{send-Took, Split, take_all-Split, take_batch_if_ready-Split}
use wlog.Pipeline.Counts.{told}
use wlog.Pipeline.Batch.{Progress, over, trying}
use wlog.Pipeline.Batch.Turns.{Kept, turn-Kept}
use wlog.Pipeline.Run.{
  Flying, Machine, Step, submit, look, flush, drain, shut, work, start, launch, landed, begin,
  worked, work_on, step, run,
}

-- How many events the batches in flight hold.
unfoldable pub aloft : List Flying → ℕ
aloft [] = 0
aloft (f ∷ fs) = length f.batch + aloft fs

-- The events that a step brings in: one that passes the filter.
unfoldable pub incoming : Config → Step → ℕ
incoming c (submit now e) = if admits c e then 1 else 0
incoming c (look now) = 0
incoming c flush = 0
incoming c drain = 0
incoming c shut = 0
incoming c work = 0

unfoldable pub admitted : Config → List Step → ℕ
admitted c [] = 0
admitted c (a ∷ later) = incoming c a + admitted c later

aloft-append : (fs : List Flying) (f : Flying) → aloft (fs ++ f ∷ []) ≡ aloft fs + length f.batch
unfolding aloft
aloft-append [] f = omega arith
aloft-append (g ∷ fs) f = omega (arith, aloft-append fs f)

module _ {ℓ} {S : Type ℓ} where
  -- Every event of n that came in is held or settled, and every dropped one is in a report.
  pub record IsAccounted (n : ℕ) (m : Machine S) : Type ℓ where
    pub counted : m.worker.sent + m.worker.dropped + length m.worker.buf + aloft m.flight ≡ n
    pub reported : m.worker.dropped ≡ told m.worker.reported

  launch-IsAccounted :
      (n : ℕ) (m : Machine S) (x : List Fields × Worker)
      → Split m.worker x
      → IsAccounted n m
      → IsAccounted n (launch x m)
  unfolding launch aloft
  launch-IsAccounted n m ([], w) s a = record {
    counted = omega (arith, s.whole, s.same_sent, s.same_dropped, a.counted);
    reported = s.same_dropped ∙ a.reported ∙ sym (ap told s.same_reported);
  }
  launch-IsAccounted n m (e ∷ es, w) s a = record {
    counted = omega (
      arith,
      s.whole,
      s.same_sent,
      s.same_dropped,
      a.counted,
      aloft-append m.flight (record { attempt = 0; batch = e ∷ es; last_error = none }),
    );
    reported = s.same_dropped ∙ a.reported ∙ sym (ap told s.same_reported);
  }

  landed-IsAccounted :
      (n k : ℕ) (m : Machine S) (p : Progress S) (rest : List Flying)
      → Kept k m.worker p
      → m.worker.sent + m.worker.dropped + length m.worker.buf + (k + aloft rest) ≡ n
      → m.worker.dropped ≡ told m.worker.reported
      → IsAccounted n (landed p rest)
  unfolding landed aloft
  landed-IsAccounted n k m (over w s) rest t counted reported = record {
    counted = omega (arith, t.counted, ap length t.same_buf, counted);
    reported = omega (arith, t.reported, reported);
  }
  landed-IsAccounted n k m (trying attempt batch err w s) rest t counted reported = record {
    counted = omega (arith, t.counted, ap length t.same_buf, counted);
    reported = omega (arith, t.reported, reported);
  }

  begun-IsAccounted :
      (n : ℕ) (f : Flying) (rest : List Flying) (m : Machine S)
      → m.worker.sent + m.worker.dropped + length m.worker.buf + (length f.batch + aloft rest) ≡ n
      → m.worker.dropped ≡ told m.worker.reported
      → IsAccounted n (landed (trying 1 f.batch f.last_error (begin m.worker) m.outside) rest)
  unfolding landed begin aloft
  begun-IsAccounted n f rest m counted reported = record { counted = counted; reported = reported }

  worked-IsAccounted :
      (o : Outside S) (c : Config) (n attempt : ℕ) (f : Flying) (rest : List Flying) (m : Machine S)
      → m.worker.sent + m.worker.dropped + length m.worker.buf + (length f.batch + aloft rest) ≡ n
      → m.worker.dropped ≡ told m.worker.reported
      → IsAccounted n (worked o c attempt f rest m)
  unfolding worked
  worked-IsAccounted o c n zero f rest m counted reported =
      begun-IsAccounted n f rest m counted reported
  worked-IsAccounted o c n (suc k) f rest m counted reported =
      landed-IsAccounted n (length f.batch) m _ rest
        (turn-Kept o c (suc k) f.batch f.last_error m.worker m.outside) counted reported

  work_on-IsAccounted :
      (o : Outside S) (c : Config) (n : ℕ) (flight : List Flying) (m : Machine S)
      → m.flight ≡ flight
      → IsAccounted n m
      → IsAccounted n (work_on o c flight m)
  unfolding work_on aloft
  work_on-IsAccounted o c n [] m same a = a
  work_on-IsAccounted o c n (f ∷ rest) m same a =
      let together : m.worker.sent
            + m.worker.dropped
            + length m.worker.buf
            + (length f.batch + aloft rest)
          ≡ n =
        omega (arith, ap aloft same, a.counted) in
      worked-IsAccounted o c n f.attempt f rest m together a.reported

  flush_when :
      (shut : Bool) (n : ℕ) (m : Machine S)
      → IsAccounted n m
      → IsAccounted n (if shut then m else launch (take_all m.worker) m)
  flush_when true n m a = a
  flush_when false n m a = launch-IsAccounted n m _ (take_all-Split m.worker) a

  step-IsAccounted :
      (o : Outside S) (c : Config) (n : ℕ) (a : Step) (m : Machine S)
      → IsAccounted n m
      → IsAccounted (n + incoming c a) (step o c a m)
  unfolding step incoming close
  step-IsAccounted o c n (submit now e) m a =
      let t = send-Took c now e m.worker in
      record {
        counted = omega (arith, t.counted, a.counted);
        reported = omega (arith, t.reported, a.reported);
      }
  step-IsAccounted o c n (look now) m a =
      launch-IsAccounted _ m _ (take_batch_if_ready-Split c now m.worker)
        (record { counted = omega (arith, a.counted); reported = a.reported })
  step-IsAccounted o c n flush m a =
      flush_when m.worker.is_closed _ m
        (record { counted = omega (arith, a.counted); reported = a.reported })
  step-IsAccounted o c n drain m a =
      launch-IsAccounted _ m _ (take_all-Split m.worker)
        (record { counted = omega (arith, a.counted); reported = a.reported })
  step-IsAccounted o c n shut m a = record {
    counted = omega (arith, a.counted);
    reported = a.reported;
  }
  step-IsAccounted o c n work m a =
      work_on-IsAccounted o c _ m.flight m refl
        (record { counted = omega (arith, a.counted); reported = a.reported })

  run_from :
      (o : Outside S) (c : Config) (steps : List Step) (n : ℕ) (m : Machine S)
      → IsAccounted n m
      → IsAccounted (n + admitted c steps) (run o c steps m)
  unfolding run admitted
  run_from o c [] n m a = record { counted = omega (arith, a.counted); reported = a.reported }
  run_from o c (s ∷ later) n m a =
      let rest : IsAccounted (n + incoming c s + admitted c later) (run o c later (step o c s m)) =
        run_from o c later (n + incoming c s) (step o c s m) (step-IsAccounted o c n s m a) in
      record { counted = omega (arith, rest.counted); reported = rest.reported }

  -- After any steps of callers and worker on a new pipeline, in any order, with any Sender, the events
  -- sent, dropped, buffered and in flight are together exactly those sent to it that pass the filter,
  -- and the drop reports name exactly as many events as are counted as dropped.
  pub run-IsAccounted :
      (o : Outside S) (c : Config) (s : S) (steps : List Step)
      → IsAccounted (admitted c steps) (run o c steps (start s))
  unfolding start aloft told
  run-IsAccounted o c s steps =
      let first : IsAccounted 0 (start s) = record { counted = refl; reported = refl } in
      let all = run_from o c steps 0 (start s) first in
      record { counted = omega (arith, all.counted); reported = all.reported }
