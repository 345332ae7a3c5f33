-- ===== src/Pipeline/Fanout/Counts.antt =====
-- What the pending counter of pipeline/fanout.go counts, and the bound on the queues.
use wlog.Base.{
  ℕ, zero, suc, ◌+◌, ◌≤◌, ◌≡◌, refl, ap, Bool, true, false, ◌&&◌, Option, none, some, List, [], ◌∷◌,
  ◌++◌, length, ltb, replicate, if◌then◌else◌, Bool-cases, inl, inr, arith,
}
use wlog.Pipeline.Fanout.{
  new_lane, Lane, FanOut, Move, start_fan_out, queue_event, each_lane, at_lane, receive, take_next,
  deliver, deliver_hand, leave, may_return, with_lanes, send, close, make_move, make_moves, sends,
  receives, delivers, leaves, closes,
}

module _ {ℓ} {E : Type ℓ} where
  abbrev in_hand : Option E → ℕ
  in_hand none = 0
  in_hand (some e) = 1

  -- The events of a lane that its drain has not been called with.
  abbrev waiting : Lane E → ℕ
  waiting l = length l.queue + in_hand l.hand

  abbrev all_waiting : List (Lane E) → ℕ
  all_waiting [] = 0
  all_waiting (l ∷ ls) = waiting l + all_waiting ls

  -- No queue holds more than its channel.
  abbrev Bounded : List (Lane E) → Type 0
  Bounded [] = true ≡ true
  Bounded (l ∷ ls) = (length l.queue ≤ 256) × Bounded ls

  -- What a turn on one lane leaves: a queue within the bound, and a counter that changed by what the
  -- turn changed in the lane.
  abbrev TurnFrom : Lane E → ℕ → Lane E × ℕ → Type 0
  TurnFrom l p turn = (length turn.0.queue ≤ 256) × (waiting turn.0 + p ≡ turn.1 + waiting l)

  abbrev Turns : (Lane E → ℕ → Lane E × ℕ) → Type ℓ
  Turns f = (l : Lane E) (p : ℕ) → length l.queue ≤ 256 → waiting l ≤ p → TurnFrom l p (f l p)

  length-queued : (q : List E) (e : E) → length (q ++ e ∷ []) ≡ suc (length q)
  length-queued [] e = refl
  length-queued (x ∷ q) e = ap suc (length-queued q e)

  queue_event-Turns : (e : E) → Turns (queue_event e)
  unfolding queue_event
  queue_event-Turns e l p bound counted = elim (Bool-cases (ltb (length l.queue) 256)) [
    | inl room ↦
        let grown : length (l.queue ++ e ∷ []) ≡ suc (length l.queue) = length-queued l.queue e in
        rw room ((ground (arith, room, grown), ground (arith, grown)))
    | inr full ↦ rw full (bound, omega arith)
  ]

  take_next-Turns :
      (h : Option E) (q : List E) (l : Lane E)
      → l.hand ≡ h
      → l.queue ≡ q
      → (length (take_next h q l).queue ≤ length l.queue) × (waiting (take_next h q l) ≡ waiting l)
  unfolding take_next
  take_next-Turns none [] l h q = (omega arith, refl)
  take_next-Turns none (e ∷ queue) l h q = rw (h, q) (omega arith, omega arith)
  take_next-Turns (some e) queue l h q = (omega arith, refl)

  receive-Turns : Turns receive
  unfolding receive
  receive-Turns l p bound counted =
      elim l.is_over
        as (λ b. TurnFrom l p (if b then (l, p) else (take_next l.hand l.queue l, p))) [
          | true ↦ (bound, omega arith)
          | false ↦
              let (shorter, same) = take_next-Turns l.hand l.queue l refl refl in
              (omega (arith, shorter, bound), omega (arith, same))
        ]

  deliver_hand-Turns :
      (h : Option E) (l : Lane E) (p : ℕ)
      → l.hand ≡ h
      → length l.queue ≤ 256
      → waiting l ≤ p
      → TurnFrom l p (deliver_hand h l p)
  unfolding deliver_hand
  deliver_hand-Turns none l p h bound counted = (bound, omega arith)
  deliver_hand-Turns (some e) l p h bound counted =
      let one : in_hand l.hand ≡ 1 = ap in_hand h in (bound, omega (arith, one, counted))

  deliver-Turns : Turns deliver
  unfolding deliver
  deliver-Turns l p bound counted = deliver_hand-Turns l.hand l p refl bound counted

  leave-Turns : (stopped : Bool) → Turns (leave stopped)
  unfolding leave
  leave-Turns stopped l p bound counted = elim (Bool-cases (stopped && may_return l.hand l.queue)) [
    | inl ends ↦ rw ends (bound, omega arith)
    | inr stays ↦ rw stays (bound, omega arith)
  ]

  each_lane-Turns :
      (f : Lane E → ℕ → Lane E × ℕ)
      → Turns f
      → (ls : List (Lane E)) (p : ℕ) → Bounded ls
      → all_waiting ls ≤ p
      → Bounded (each_lane f ls p).0
        × (all_waiting (each_lane f ls p).0 + p ≡ (each_lane f ls p).1 + all_waiting ls)
  unfolding each_lane
  each_lane-Turns f turns [] p bound counted = (refl, omega arith)
  each_lane-Turns f turns (l ∷ ls) p (b, bs) counted =
      let (fits, here) = turns l p b (omega (arith, counted)) in
      let (rest_fit, rest) =
        each_lane-Turns f turns ls (f l p).1 bs (omega (arith, here, counted)) in
      ((fits, rest_fit), omega (arith, here, rest))

  at_lane-Turns :
      (f : Lane E → ℕ → Lane E × ℕ)
      → Turns f
      → (i : ℕ) (ls : List (Lane E)) (p : ℕ) → Bounded ls
      → all_waiting ls ≤ p
      → Bounded (at_lane f i ls p).0
        × (all_waiting (at_lane f i ls p).0 + p ≡ (at_lane f i ls p).1 + all_waiting ls)
  unfolding at_lane
  at_lane-Turns f turns i [] p bound counted = (refl, omega arith)
  at_lane-Turns f turns zero (l ∷ ls) p (b, bs) counted =
      let (fits, here) = turns l p b (omega (arith, counted)) in ((fits, bs), omega (arith, here))
  at_lane-Turns f turns (suc i) (l ∷ ls) p (b, bs) counted =
      let (fit, rest) = at_lane-Turns f turns i ls p bs (omega (arith, counted)) in
      ((b, fit), omega (arith, rest))

  abbrev pub IsCounted : FanOut E → Type 0
  IsCounted f = Bounded f.lanes × (f.pending ≡ all_waiting f.lanes)

  -- A turn of the lanes of a fan-out that counts.
  abbrev TurnsAll : FanOut E → List (Lane E) × ℕ → Type 0
  TurnsAll f turn = Bounded turn.0 × (all_waiting turn.0 + f.pending ≡ turn.1 + all_waiting f.lanes)

  with_lanes-IsCounted :
      (f : FanOut E) (turn : List (Lane E) × ℕ)
      → IsCounted f
      → TurnsAll f turn
      → IsCounted (with_lanes f turn)
  unfolding with_lanes
  with_lanes-IsCounted f turn (b, c) (fits, moved) = (fits, omega (arith, c, moved))

  at_lane-IsCounted :
      (g : Lane E → ℕ → Lane E × ℕ) (i : ℕ) (f : FanOut E)
      → Turns g
      → IsCounted f
      → IsCounted (with_lanes f (at_lane g i f.lanes f.pending))
  at_lane-IsCounted g i f turns (b, c) =
      with_lanes-IsCounted f (at_lane g i f.lanes f.pending) (b, c)
        (at_lane-Turns g turns i f.lanes f.pending b (omega (arith, c)))

  send-IsCounted : (e : E) (f : FanOut E) → IsCounted f → IsCounted (send e f)
  unfolding send
  send-IsCounted e f (b, c) =
      elim f.closed
        as (λ x.
          IsCounted (if x then f else with_lanes f (each_lane (queue_event e) f.lanes f.pending))) [
            | true ↦ (b, c)
            | false ↦
                (with_lanes-IsCounted f (each_lane (queue_event e) f.lanes f.pending) (b, c)
                  (each_lane-Turns (queue_event e) (queue_event-Turns e) f.lanes f.pending b
                    (omega (arith, c))))
          ]

  make_move-IsCounted : (m : Move E) (f : FanOut E) → IsCounted f → IsCounted (make_move m f)
  unfolding make_move close
  make_move-IsCounted (sends e) f counted = send-IsCounted e f counted
  make_move-IsCounted (receives i) f counted = at_lane-IsCounted receive i f receive-Turns counted
  make_move-IsCounted (delivers i) f counted = at_lane-IsCounted deliver i f deliver-Turns counted
  make_move-IsCounted (leaves i) f counted =
      at_lane-IsCounted (leave f.closed) i f (leave-Turns f.closed) counted
  make_move-IsCounted closes f counted = counted

  moves-IsCounted : (ms : List (Move E)) (f : FanOut E) → IsCounted f → IsCounted (make_moves ms f)
  unfolding make_moves
  moves-IsCounted [] f counted = counted
  moves-IsCounted (m ∷ ms) f counted =
      moves-IsCounted ms (make_move m f) (make_move-IsCounted m f counted)

  new-IsCounted :
      (l : Lane E) (n : ℕ)
      → l ≡ new_lane
      → Bounded (replicate n l) × (all_waiting (replicate n l) ≡ 0)
  new-IsCounted l zero e = (refl, refl)
  new-IsCounted l (suc n) e =
      let (b, c) = new-IsCounted l n e in
      let short : length l.queue ≡ 0 = ap (λ k. length k.queue) e in
      let free : in_hand l.hand ≡ 0 = ap (λ k. in_hand k.hand) e in
      ((omega (arith, short), b), omega (arith, short, free, c))

  -- Whatever callers and workers do, in any order, the pending counter is the number of events that
  -- are queued or in the hand of a worker, and no queue holds more than 256 events.
  pub make_moves-IsCounted :
      (n : ℕ) (ms : List (Move E)) → IsCounted (make_moves ms (start_fan_out n))
  unfolding start_fan_out
  make_moves-IsCounted n ms =
      let (b, c) = new-IsCounted new_lane n refl in
      moves-IsCounted ms (start_fan_out n) (b, omega (arith, c))
