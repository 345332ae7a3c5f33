-- ===== src/Pipeline/Fanout.antt =====
-- The fan-out of pipeline/fanout.go: one bounded queue and one worker per drain, which run at the
-- same time as Send, as moves of callers and workers in any order.
pub mod Counts
use wlog.Base.{
  ℕ, zero, suc, ◌+◌, ◌-◌, Bool, true, false, not, ◌&&◌, ◌||◌, Option, none, some, List, [], ◌∷◌,
  ◌++◌, length, ltb, if◌then◌else◌, replicate,
}

-- One drain's queue, the event that its worker took from it and has not delivered, the events that the
-- drain was called with, and whether the worker returned.
pub record Lane {ℓ} (E : Type ℓ) : Type ℓ where
  pub queue : List E
  pub hand : Option E
  pub given : List E
  pub is_over : Bool

-- `closed` is set in the same step that closes `stop`.
pub record FanOut {ℓ} (E : Type ℓ) : Type ℓ where
  pub lanes : List (Lane E)
  pub closed : Bool
  pub pending : ℕ

abbrev pub queue_size : ℕ
queue_size = 256

module _ {ℓ} {E : Type ℓ} where
  abbrev pub new_lane : Lane E
  new_lane = record { queue = []; hand = none; given = []; is_over = false }

  -- `FanOut` of that many drains
  unfoldable pub start_fan_out : ℕ → FanOut E
  start_fan_out drains = record { lanes = replicate drains new_lane; closed = false; pending = 0 }

  -- One turn of the loop in `Send`: the lane and `pending` after it.
  unfoldable pub queue_event : E → Lane E → ℕ → Lane E × ℕ
  queue_event e l pending =
      if ltb (length l.queue) queue_size
      then (record l { queue = l.queue ++ e ∷ [] }, suc pending)
      else (l, suc pending - 1)

  unfoldable pub each_lane : (Lane E → ℕ → Lane E × ℕ) → List (Lane E) → ℕ → List (Lane E) × ℕ
  each_lane f [] pending = ([], pending)
  each_lane f (l ∷ ls) pending =
      let turn = f l pending in let rest = each_lane f ls turn.1 in (turn.0 ∷ rest.0, rest.1)

  unfoldable pub at_lane : (Lane E → ℕ → Lane E × ℕ) → ℕ → List (Lane E) → ℕ → List (Lane E) × ℕ
  at_lane f i [] pending = ([], pending)
  at_lane f zero (l ∷ ls) pending = let turn = f l pending in (turn.0 ∷ ls, turn.1)
  at_lane f (suc i) (l ∷ ls) pending = let rest = at_lane f i ls pending in (l ∷ rest.0, rest.1)

  -- The worker takes the oldest event from its queue.
  unfoldable pub take_next : Option E → List E → Lane E → Lane E
  take_next none (e ∷ queue) l = record l { queue = queue; hand = some e }
  take_next none [] l = l
  take_next (some e) queue l = l

  unfoldable pub receive : Lane E → ℕ → Lane E × ℕ
  unfolding take_next
  receive l pending = if l.is_over then (l, pending) else (take_next l.hand l.queue l, pending)

  -- `deliver`, which counts the event also when the drain panics
  unfoldable pub deliver_hand : Option E → Lane E → ℕ → Lane E × ℕ
  deliver_hand none l pending = (l, pending)
  deliver_hand (some e) l pending =
      (record l { hand = none; given = l.given ++ e ∷ [] }, pending - 1)

  unfoldable pub deliver : Lane E → ℕ → Lane E × ℕ
  unfolding deliver_hand
  deliver l pending = deliver_hand l.hand l pending

  -- The worker returns once `stop` is closed and it finds its queue empty.
  unfoldable pub may_return : Option E → List E → Bool
  may_return none [] = true
  may_return none (e ∷ queue) = false
  may_return (some e) queue = false

  unfoldable pub leave : Bool → Lane E → ℕ → Lane E × ℕ
  unfolding may_return
  leave stopped l pending =
      if stopped && may_return l.hand l.queue
      then (record l { is_over = true }, pending)
      else (l, pending)

  unfoldable pub with_lanes : FanOut E → List (Lane E) × ℕ → FanOut E
  with_lanes f turn = record f { lanes = turn.0; pending = turn.1 }

  unfoldable pub send : E → FanOut E → FanOut E
  unfolding queue_event each_lane with_lanes
  send e f = if f.closed then f else with_lanes f (each_lane (queue_event e) f.lanes f.pending)

  unfoldable pub close : FanOut E → FanOut E
  close f = record f { closed = true }

-- What callers and the workers of the drains do, a worker by the index of its drain.
pub data Move {ℓ} (E : Type ℓ) : Type ℓ where
  sends : E → Move E
  receives : ℕ → Move E
  delivers : ℕ → Move E
  leaves : ℕ → Move E
  closes : Move E

module _ {ℓ} {E : Type ℓ} where
  unfoldable pub make_move : Move E → FanOut E → FanOut E
  unfolding send receive deliver leave close at_lane with_lanes
  make_move (sends e) f = send e f
  make_move (receives i) f = with_lanes f (at_lane receive i f.lanes f.pending)
  make_move (delivers i) f = with_lanes f (at_lane deliver i f.lanes f.pending)
  make_move (leaves i) f = with_lanes f (at_lane (leave f.closed) i f.lanes f.pending)
  make_move closes f = close f

  unfoldable pub make_moves : List (Move E) → FanOut E → FanOut E
  unfolding make_move
  make_moves [] f = f
  make_moves (m ∷ ms) f = make_moves ms (make_move m f)
