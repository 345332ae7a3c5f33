-- ===== src/Pipeline/Partial.antt =====
-- dropPartial of pipeline/pipeline.go: which events of a batch a PartialError refuses, which it
-- sends again, and that the rest count as sent.
pub mod Chosen
use wlog.Base.{
  ℕ, zero, suc, ◌+◌, ◌-◌, ◌≤◌, ◌<◌, ◌≡◌, refl, ap, sym, ◌∙◌, Bool, true, false, not, ◌&&◌, ◌||◌,
  some, List, [], ◌∷◌, arith, if◌then◌else◌, ◌==◌, length, set, replicate, Bool-cases, ==_iff, inl,
  inr, length-set,
}
use wlog.Base.Int.{ℤ, pos, negsuc}
use wlog.Value.{Fields}
use wlog.Pipeline.{PartialError, Worker, unsent, SendError}
use wlog.Pipeline.Buffer.{lose, deliver}

-- `flags[i]`, false out of range.
unfoldable pub flagged : List Bool → ℕ → Bool
flagged [] i = false
flagged (b ∷ bs) zero = b
flagged (b ∷ bs) (suc i) = flagged bs i

-- `flags[i] = true` for each index in range that is not barred: `set` ignores one out of range.
unfoldable pub mark : List Bool → List ℤ → List Bool → List Bool
mark barred [] flags = flags
mark barred (negsuc i ∷ is) flags = mark barred is flags
mark barred (pos i ∷ is) flags =
    mark barred is (if flagged barred i then flags else set flags i true)

unfoldable pub place : Bool → Bool → Fields → List Fields × List Fields → List Fields × List Fields
place d r e (refused, again) =
    if d then (e ∷ refused, again) else if r then (refused, e ∷ again) else (refused, again)

-- The last loop: a flag for a refusal comes before one for another try.
unfoldable pub sort_out : List Bool → List Bool → List Fields → List Fields × List Fields
sort_out ds rs [] = ([], [])
sort_out [] rs (e ∷ es) = ([], [])
sort_out (d ∷ ds) [] (e ∷ es) = ([], [])
sort_out (d ∷ ds) (r ∷ rs) (e ∷ es) = place d r e (sort_out ds rs es)

unfoldable pub outcomes : PartialError → List Fields → List Fields × List Fields
outcomes pe batch =
    let unmarked = replicate (length batch) false in
    let dropped = mark [] pe.dropped unmarked in
    sort_out dropped (mark dropped pe.retry unmarked) batch

-- Nothing is reported when nothing was refused.
unfoldable pub refuse : List Fields → SendError → Worker → Worker
refuse [] err w = w
refuse (e ∷ es) err w = lose (e ∷ es) (unsent (some err)) w

unfoldable pub drop_partial : List Fields → PartialError → SendError → Worker → List Fields × Worker
drop_partial batch pe err w =
    let (refused, again) = outcomes pe batch in
    let left = refuse refused err w in
    (again, deliver (length batch - length refused - length again) left)
