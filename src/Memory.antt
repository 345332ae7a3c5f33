-- ===== src/Memory.antt =====
-- drain/memory/memory.go: the in-process drain, a ring of the newest events and the subscribers
-- that follow it live. An event is a value here, so the copies that `cloneMap` makes are the
-- events themselves. A subscriber's channel is the list of what it holds, oldest first; the map
-- of channels is a list, since every channel gets the same treatment whatever the order.
pub mod Window
pub mod Fanout
mod Tests
use wlog.Base.{
  ℕ, zero, suc, ◌+◌, ◌%◌, List, [], ◌∷◌, ◌++◌, ltb, if◌then◌else◌, length, set, take, drop,
}
use wlog.Base.Int.{ℤ, pos, negsuc}

abbrev pub default_size : ℕ
default_size = 1000

abbrev pub subscriber_buffer : ℕ
subscriber_buffer = 100

module _ {ℓ} (A : Type ℓ) where
  pub record Memory : Type ℓ where
    pub size : ℕ
    pub buf : List A
    pub next : ℕ
    pub subs : List (List A)
    pub dropped : ℕ

-- `size <= 0` takes the default.
ring_size : ℤ → ℕ
ring_size (pos zero) = default_size
ring_size (pos (suc n)) = suc n
ring_size (negsuc n) = default_size

module _ {ℓ} {A : Type ℓ} where
  pub new : ℤ → Memory A
  unfolding ring_size
  new size = record { size = ring_size size; buf = []; next = 0; subs = []; dropped = 0 }

  -- The two branches of the write under `mu`.
  store : Memory A → A → Memory A
  store m e =
      if ltb (length m.buf) m.size
      then record m { buf = m.buf ++ e ∷ [] }
      else record m { buf = set m.buf m.next e; next = (m.next + 1) % m.size }

  -- A full channel misses the event, and the miss is counted.
  offer : A → List (List A) → ℕ → List (List A) × ℕ
  offer e [] missed = ([], missed)
  offer e (ch ∷ chs) missed =
      let (rest, n) =
        offer e chs (if ltb (length ch) subscriber_buffer then missed else missed + 1) in
      ((if ltb (length ch) subscriber_buffer then ch ++ e ∷ [] else ch) ∷ rest, n)

  fan_out : Memory A → A → Memory A
  unfolding offer
  fan_out m e =
      let (subs, dropped) = offer e m.subs m.dropped in record m { subs = subs; dropped = dropped }

  pub send : Memory A → A → Memory A
  unfolding store fan_out
  send m e = fan_out (store m e) e

  -- Oldest first: the buffer as it stands until it is full, then from `next` round to it.
  pub snapshot : Memory A → List A
  snapshot m = if ltb (length m.buf) m.size then m.buf else drop m.next m.buf ++ take m.next m.buf

  pub subscribe : Memory A → Memory A
  subscribe m = record m { subs = m.subs ++ [] ∷ [] }

  pub clear : Memory A → Memory A
  clear m = record m { buf = []; next = 0 }

  pub send_all : Memory A → List A → Memory A
  send_all m [] = m
  send_all m (e ∷ es) = send_all (send m e) es
