-- ===== src/Pipeline/Counts.antt =====
-- The counters of a pipeline against the events they count: what one step settles.
use wlog.Base.{ℕ, ◌+◌, ◌-◌, ◌≡◌, refl, ◌∙◌, subst, List, [], ◌∷◌, ◌++◌, arith, length}
use wlog.Value.{Fields}
use wlog.Pipeline.{Worker, Cause, PartialError, SendError}
use wlog.Pipeline.Buffer.{lose, deliver}
use wlog.Pipeline.Partial.{outcomes, refuse, drop_partial}
use wlog.Pipeline.Partial.Chosen.{outcomes-length}

-- How many events the drop reports name.
unfoldable pub told : List (List Fields × Cause) → ℕ
told [] = 0
told ((events, cause) ∷ rest) = length events + told rest

pub told-append :
    (rs : List (List Fields × Cause)) (es : List Fields) (c : Cause)
    → told (rs ++ (es, c) ∷ []) ≡ told rs + length es
unfolding told
told-append [] es c = omega arith
told-append ((fs, d) ∷ rs) es c = omega (arith, told-append rs es c)

-- From w to w', n events were sent or dropped, each dropped one was reported, and nothing else of
-- the worker changed.
pub record Settled (n : ℕ) (w w' : Worker) : Type 0 where
  pub counted : w'.sent + w'.dropped ≡ w.sent + w.dropped + n
  pub reported : w'.dropped + told w.reported ≡ w.dropped + told w'.reported
  pub same_buf : w'.buf ≡ w.buf
  pub same_retries : w'.retries ≡ w.retries
  pub same_batches : w'.batches ≡ w.batches
  pub same_closed : w'.is_closed ≡ w.is_closed

pub nothing-Settled : (w : Worker) → Settled 0 w w
nothing-Settled w = record {
  counted = omega arith;
  reported = refl;
  same_buf = refl;
  same_retries = refl;
  same_batches = refl;
  same_closed = refl;
}

pub deliver-Settled : (n : ℕ) (w : Worker) → Settled n w (deliver n w)
unfolding deliver
deliver-Settled n w = record {
  counted = omega arith;
  reported = refl;
  same_buf = refl;
  same_retries = refl;
  same_batches = refl;
  same_closed = refl;
}

pub lose-Settled :
    (events : List Fields) (cause : Cause) (w : Worker)
    → Settled (length events) w (lose events cause w)
unfolding lose
lose-Settled events cause w = record {
  counted = omega arith;
  reported = omega (arith, told-append w.reported events cause);
  same_buf = refl;
  same_retries = refl;
  same_batches = refl;
  same_closed = refl;
}

pub both-Settled :
    {m n : ℕ} {w w' w'' : Worker} → Settled m w w' → Settled n w' w'' → Settled (m + n) w w''
both-Settled a b = record {
  counted = omega (arith, a.counted, b.counted);
  reported = omega (arith, a.reported, b.reported);
  same_buf = b.same_buf ∙ a.same_buf;
  same_retries = b.same_retries ∙ a.same_retries;
  same_batches = b.same_batches ∙ a.same_batches;
  same_closed = b.same_closed ∙ a.same_closed;
}

refuse-Settled :
    (events : List Fields) (err : SendError) (w : Worker)
    → Settled (length events) w (refuse events err w)
unfolding refuse
refuse-Settled [] err w = nothing-Settled w
refuse-Settled (e ∷ es) err w = lose-Settled (e ∷ es) _ w

-- A partial failure settles every event of the batch but those to send again.
pub drop_partial-Settled :
    (batch : List Fields) (pe : PartialError) (err : SendError) (w : Worker)
    → Settled
        (length batch - length (drop_partial batch pe err w).0)
        w
        (drop_partial batch pe err w).1
unfolding drop_partial
drop_partial-Settled batch pe err w =
    let refused = (outcomes pe batch).0 in
    let accepted = length batch - length refused - length (outcomes pe batch).1 in
    let left = refuse refused err w in
    let sorted = both-Settled (refuse-Settled refused err w) (deliver-Settled accepted left) in
    subst (λ n. Settled n w (deliver accepted left)) (omega (arith, outcomes-length pe batch))
      sorted
