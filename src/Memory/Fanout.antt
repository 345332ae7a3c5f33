-- ===== src/Memory/Fanout.antt =====
-- The live subscribers of a ring: a slow one loses the newest event, and only it does.
use wlog.Base.{ℕ, ◌+◌, ◌≡◌, inl, inr, List, [], ◌∷◌, arith, ltb, length, Bool-cases, length-append}
use wlog.Memory.{Memory, send, store, fan_out, offer, subscriber_buffer}

module _ {ℓ} {A : Type ℓ} where
  -- What all channels hold.
  abbrev pub held : List (List A) → ℕ
  held [] = 0
  held (ch ∷ chs) = length ch + held chs

  offer-conserves :
      (e : A) (chs : List (List A)) (missed : ℕ)
      → held (offer e chs missed).0 + (offer e chs missed).1 ≡ held chs + missed + length chs
  unfolding offer
  offer-conserves e [] missed = omega arith
  offer-conserves e (ch ∷ chs) missed = elim (Bool-cases (ltb (length ch) subscriber_buffer)) [
    | inl room ↦ rw room (omega (arith, offer-conserves e chs missed, length-append ch (e ∷ [])))
    | inr full ↦ rw full (omega (arith, offer-conserves e chs (missed + 1)))
  ]

  -- A send gives each subscriber the event or counts one miss: what the channels hold and the
  -- misses grow together by the number of subscribers.
  pub send-conserves :
      (m : Memory A) (e : A)
      → held (send m e).subs + (send m e).dropped ≡ held m.subs + m.dropped + length m.subs
  unfolding send fan_out store
  send-conserves m e = ground (arith, offer-conserves e m.subs m.dropped)
