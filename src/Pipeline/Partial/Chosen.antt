-- ===== src/Pipeline/Partial/Chosen.antt =====
-- The events that dropPartial chooses, against the indices of the error.
use wlog.Base.{
  ℕ, zero, suc, ◌+◌, ◌≤◌, ◌<◌, ◌≡◌, refl, ap, sym, ◌∙◌, Bool, true, false, not, ◌&&◌, ◌||◌, List,
  [], ◌∷◌, arith, if◌then◌else◌, ◌==◌, length, set, replicate, Bool-cases, ==_iff, inl, inr,
  length-set,
}
use wlog.Base.Int.{ℤ, pos, negsuc}
use wlog.Value.{Fields}
use wlog.Pipeline.{PartialError}
use wlog.Pipeline.Partial.{flagged, mark, place, sort_out, outcomes}

-- Does a list of indices name a position of the batch?
unfoldable pub lists : List ℤ → ℕ → Bool
lists [] j = false
lists (negsuc i ∷ is) j = lists is j
lists (pos i ∷ is) j = i == j || lists is j

-- The events at the positions, counted from a first one, that satisfy a test.
unfoldable pub chosen : (ℕ → Bool) → ℕ → List Fields → List Fields
chosen p i [] = []
chosen p i (e ∷ es) = let rest = chosen p (suc i) es in if p i then e ∷ rest else rest

flagged-set :
    (flags : List Bool) (i j : ℕ)
    → j < length flags
    → flagged (set flags i true) j ≡ i == j || flagged flags j
unfolding flagged
flagged-set [] i j h = elim h [ ]
flagged-set (b ∷ bs) zero zero h = refl
flagged-set (b ∷ bs) zero (suc j) h = ground arith
flagged-set (b ∷ bs) (suc i) zero h = ground arith
flagged-set (b ∷ bs) (suc i) (suc j) h =
    flagged-set bs i j (omega arith)
    ∙ ap (λ same. same || flagged bs j) (let e : (i == j) ≡ (suc i == suc j) = ground arith in e)

-- A position in range is flagged once a list names it and it is not barred.
flagged-mark :
    (barred : List Bool) (is : List ℤ) (flags : List Bool) (j : ℕ)
    → j < length flags
    → flagged (mark barred is flags) j ≡ flagged flags j || (lists is j && not (flagged barred j))
unfolding mark lists
flagged-mark barred [] flags j h = ground arith
flagged-mark barred (negsuc i ∷ is) flags j h = flagged-mark barred is flags j h
flagged-mark barred (pos i ∷ is) flags j h = elim (Bool-cases (flagged barred i)) [
  | inl held ↦
      let here : (i == j) ≡ true → flagged barred j ≡ true =
        λ same. sym (ap (flagged barred) (let (to, _) = ==_iff i j in to same)) ∙ held in
      rw held (flagged-mark barred is flags j h ∙ ground (arith, here))
  | inr free ↦
      let later =
        flagged-mark barred is (set flags i true) j (omega (arith, length-set flags i true)) in
      let here : (i == j) ≡ true → flagged barred j ≡ false =
        λ same. sym (ap (flagged barred) (let (to, _) = ==_iff i j in to same)) ∙ free in
      rw free (later ∙ ground (arith, here, flagged-set flags i j h))
]

length-mark :
    (barred : List Bool) (is : List ℤ) (flags : List Bool)
    → length (mark barred is flags) ≡ length flags
unfolding mark
length-mark barred [] flags = refl
length-mark barred (negsuc i ∷ is) flags = length-mark barred is flags
length-mark barred (pos i ∷ is) flags = ground (
  arith,
  length-set flags i true,
  length-mark barred is (if flagged barred i then flags else set flags i true),
)

flagged-replicate : (n j : ℕ) → flagged (replicate n false) j ≡ false
unfolding flagged
flagged-replicate zero j = refl
flagged-replicate (suc n) zero = refl
flagged-replicate (suc n) (suc j) = flagged-replicate n j

length-replicate : (n : ℕ) → length (replicate n false) ≡ n
length-replicate zero = refl
length-replicate (suc n) = ap suc (length-replicate n)

marked :
    (barred : List Bool) (is : List ℤ) (n j : ℕ)
    → j < n
    → flagged (mark barred is (replicate n false)) j ≡ lists is j && not (flagged barred j)
marked barred is n j h =
    flagged-mark barred is (replicate n false) j (omega (arith, length-replicate n))
    ∙ ap (λ b. b || (lists is j && not (flagged barred j))) (flagged-replicate n j)

marked_free :
    (is : List ℤ) (n j : ℕ) → j < n → flagged (mark [] is (replicate n false)) j ≡ lists is j
unfolding flagged
marked_free is n j h = marked [] is n j h ∙ ground arith

chosen-ext :
    (p q : ℕ → Bool) (i : ℕ) (es : List Fields)
    → ((j : ℕ) → j < length es → p (i + j) ≡ q (i + j))
    → chosen p i es ≡ chosen q i es
unfolding chosen
chosen-ext p q i [] h = refl
chosen-ext p q i (e ∷ es) h =
    let rest : chosen p (suc i) es ≡ chosen q (suc i) es =
      chosen-ext p q (suc i) es
        (λ j le. ap p (omega arith) ∙ h (suc j) (omega arith) ∙ ap q (omega arith)) in
    let first : p i ≡ q i = ap p (omega arith) ∙ h 0 (omega arith) ∙ ap q (omega arith) in
    rw (rest, first)

placed :
    (d r : Bool) (e : Fields) (refused again : List Fields)
    → place d r e (refused, again) ≡ (
        let both : List Fields × List Fields =
          ((if d then e ∷ refused else refused), (if r && not d then e ∷ again else again)) in
        both)
unfolding place
placed true true e refused again = refl
placed true false e refused again = refl
placed false true e refused again = refl
placed false false e refused again = refl

-- Flags that agree with two tests sort a batch as the tests do.
sort_out-chosen :
    (p q : ℕ → Bool) (es : List Fields) (ds rs : List Bool) (i : ℕ)
    → length ds ≡ length es
    → length rs ≡ length es
    → ((j : ℕ) → j < length es → flagged ds j ≡ p (i + j))
    → ((j : ℕ) → j < length es → flagged rs j ≡ q (i + j))
    → sort_out ds rs es ≡ (chosen p i es, chosen (λ j. q j && not (p j)) i es)
unfolding sort_out chosen flagged
sort_out-chosen p q [] ds rs i ld lr hd hr = refl
sort_out-chosen p q (e ∷ es) [] rs i ld lr hd hr = absurd (omega arith)
sort_out-chosen p q (e ∷ es) (d ∷ ds) [] i ld lr hd hr = absurd (omega arith)
sort_out-chosen p q (e ∷ es) (d ∷ ds) (r ∷ rs) i ld lr hd hr =
    let tail =
      sort_out-chosen p q es ds rs (suc i) (omega arith) (omega arith)
        (λ j h. hd (suc j) (omega arith) ∙ ap p (omega arith))
        (λ j h. hr (suc j) (omega arith) ∙ ap q (omega arith)) in
    let at_d : p i ≡ d = sym (hd 0 (omega arith) ∙ ap p (omega arith)) in
    let at_r : q i ≡ r = sym (hr 0 (omega arith) ∙ ap q (omega arith)) in
    rw (tail, at_d, at_r)
      (placed d r e (chosen p (suc i) es) (chosen (λ j. q j && not (p j)) (suc i) es))

-- After a partial failure, the worker sends again exactly the events whose index the error lists
-- for a retry and not as dropped, and reports exactly those whose index it lists as dropped, each
-- in the order of the batch; an index that is negative or past the batch names no event.
pub outcomes-chosen :
    (pe : PartialError) (batch : List Fields)
    → outcomes pe batch ≡ (
      chosen (lists pe.dropped) 0 batch,
      chosen (λ j. lists pe.retry j && not (lists pe.dropped j)) 0 batch,
    )
unfolding outcomes
outcomes-chosen pe batch =
    let n = length batch in
    let dropped = mark [] pe.dropped (replicate n false) in
    let again = mark dropped pe.retry (replicate n false) in
    sort_out-chosen (lists pe.dropped) (flagged again) batch dropped again 0
      (length-mark [] pe.dropped (replicate n false) ∙ length-replicate n)
      (length-mark dropped pe.retry (replicate n false) ∙ length-replicate n)
      (λ j h. marked_free pe.dropped n j h ∙ ap (lists pe.dropped) (omega arith))
      (λ j h. ap (flagged again) (omega arith))
    ∙ ap
        (λ es.
          (let both : List Fields × List Fields = (chosen (lists pe.dropped) 0 batch, es) in both))
        (chosen-ext _ _ 0 batch (λ j h.
          let e : 0 + j ≡ j = omega arith in
          rw e (ground (arith, marked dropped pe.retry n j h, marked_free pe.dropped n j h))))

place-length :
    (d r : Bool) (e : Fields) (s : List Fields × List Fields) (n : ℕ)
    → length s.0 + length s.1 ≤ n
    → length (place d r e s).0 + length (place d r e s).1 ≤ suc n
unfolding place
place-length true r e (refused, again) n h = omega arith
place-length false true e (refused, again) n h = omega arith
place-length false false e (refused, again) n h = omega arith

sort_out-length :
    (ds rs : List Bool) (es : List Fields)
    → length (sort_out ds rs es).0 + length (sort_out ds rs es).1 ≤ length es
unfolding sort_out
sort_out-length ds rs [] = omega arith
sort_out-length [] rs (e ∷ es) = omega arith
sort_out-length (d ∷ ds) [] (e ∷ es) = omega arith
sort_out-length (d ∷ ds) (r ∷ rs) (e ∷ es) =
    place-length d r e (sort_out ds rs es) (length es) (sort_out-length ds rs es)

pub outcomes-length :
    (pe : PartialError) (batch : List Fields)
    → length (outcomes pe batch).0 + length (outcomes pe batch).1 ≤ length batch
unfolding outcomes
outcomes-length pe batch =
    let dropped = mark [] pe.dropped (replicate (length batch) false) in
    sort_out-length dropped (mark dropped pe.retry (replicate (length batch) false)) batch
