-- ===== src/Memory/Window.antt =====
-- The ring holds the newest `size` events, in the order in which they were sent.
use native.Mathlib.Nat.{mod-eq_of_lt, mod_self}
use wlog.Base.{
  ℕ, zero, suc, ◌+◌, ◌-◌, ◌%◌, ◌≤◌, ◌<◌, ◌≡◌, refl, ap, sym, ◌∙◌, inl, inr, ◌⊎◌, List, [], ◌∷◌,
  ◌++◌, arith, ltb, ltb→lt, ltb-false→le, take-append-drop, lt→ltb, le→ltb, length, set, take, drop,
  Bool-cases, append-nil, append_assoc, length-append, length-set, length-drop, drop-append,
  drop-drop, drop-length_le, take-length_le,
}
use wlog.Base.Int.{ℤ}
use wlog.Memory.{Memory, new, store, send, snapshot, clear, send_all, fan_out}

next_within : (n size : ℕ) → n < size → (n + 1) % size < size
next_within n size h = grind arith

mod_self_suc : (n : ℕ) → (n + 1) % suc n ≡ 0
mod_self_suc n = let e : n + 1 ≡ suc n = omega arith in rw e (mod_self (suc n))

-- The step of `next`: on by one, or round to 0.
next_cases :
    (n size : ℕ)
    → n < size
    → ((n + 1 < size) × ((n + 1) % size ≡ suc n)) ⊎ ((size ≡ suc n) × ((n + 1) % size ≡ 0))
next_cases n size h = elim (Bool-cases (ltb (n + 1) size)) [
  | inl on ↦ inl (ltb→lt _ _ on, mod-eq_of_lt (ltb→lt _ _ on) ∙ omega arith)
  | inr round ↦
      let e : size ≡ suc n = omega (arith, ltb-false→le _ _ round) in inr (e, rw e (mod_self_suc n))
]

module _ {ℓ} {A : Type ℓ} where
  pub record IsValid (m : Memory A) : Type 0 where
    pub positive : 0 < m.size
    pub bounded : length m.buf ≤ m.size
    pub within : m.next < m.size
    pub unwrapped : length m.buf < m.size → m.next ≡ 0

  pub new-IsValid : (size : ℤ) → IsValid (new size)
  unfolding new
  new-IsValid (ℤ.pos zero) = ground arith
  new-IsValid (ℤ.pos (suc n)) = ground arith
  new-IsValid (ℤ.negsuc n) = ground arith

  store_room :
      (m : Memory A) (e : A)
      → length m.buf < m.size
      → store m e ≡ record m { buf = m.buf ++ e ∷ [] }
  unfolding store
  store_room m e h = rw (lt→ltb _ _ h)

  store_full :
      (m : Memory A) (e : A)
      → m.size ≤ length m.buf
      → store m e ≡ record m { buf = set m.buf m.next e; next = (m.next + 1) % m.size }
  unfolding store
  store_full m e h = rw (le→ltb _ _ h)

  store-IsValid : (m : Memory A) (e : A) → IsValid m → IsValid (store m e)
  store-IsValid m e v = elim (Bool-cases (ltb (length m.buf) m.size)) [
    | inl room ↦ rw (store_room m e (ltb→lt _ _ room)) (record {
      positive = v.positive;
      bounded = omega (arith, length-append m.buf (e ∷ []), ltb→lt _ _ room);
      within = v.within;
      unwrapped = λ h. v.unwrapped (ltb→lt _ _ room);
    })
    | inr full ↦ rw (store_full m e (ltb-false→le _ _ full)) (record {
      positive = v.positive;
      bounded = omega (arith, length-set m.buf m.next e, v.bounded);
      within = next_within m.next m.size v.within;
      unwrapped = λ h. absurd (omega (arith, length-set m.buf m.next e, ltb-false→le _ _ full));
    })
  ]

  -- The ring stays well formed, whatever is sent.
  pub send-IsValid : (m : Memory A) (e : A) → IsValid m → IsValid (send m e)
  unfolding send fan_out
  send-IsValid m e v =
      let w = store-IsValid m e v in
      record {
        positive = w.positive;
        bounded = w.bounded;
        within = w.within;
        unwrapped = w.unwrapped;
      }

  drop-set : (xs : List A) (i : ℕ) (v : A) → drop (suc i) (set xs i v) ≡ drop (suc i) xs
  drop-set [] i v = refl
  drop-set (x ∷ xs) zero v = refl
  drop-set (x ∷ xs) (suc i) v = drop-set xs i v

  take-set :
      (xs : List A) (i : ℕ) (v : A)
      → i < length xs
      → take (suc i) (set xs i v) ≡ take i xs ++ v ∷ []
  take-set [] i v h = absurd (omega arith)
  take-set (x ∷ xs) zero v h = refl
  take-set (x ∷ xs) (suc i) v h = ap (◌∷◌ x) (take-set xs i v (omega arith))

  drop-rotate :
      (xs ys : List A) (i : ℕ) → i < length xs → drop 1 (drop i xs ++ ys) ≡ drop (suc i) xs ++ ys
  drop-rotate [] ys i h = absurd (omega arith)
  drop-rotate (x ∷ xs) ys zero h = refl
  drop-rotate (x ∷ xs) ys (suc i) h = drop-rotate xs ys i (omega arith)

  set-rotate :
      (xs : List A) (i : ℕ) (v : A)
      → i < length xs
      → drop (suc i) (set xs i v) ++ take (suc i) (set xs i v)
        ≡ drop 1 (drop i xs ++ take i xs) ++ v ∷ []
  set-rotate xs i v h =
      rw (drop-set xs i v, take-set xs i v h, drop-rotate xs (take i xs) i h)
        (sym (append_assoc (drop (suc i) xs) (take i xs) (v ∷ [])))

  -- The newest `n` of `xs`, in their order.
  abbrev pub newest : ℕ → List A → List A
  newest n xs = drop (length xs - n) xs

  length-snapshot : (m : Memory A) → IsValid m → length (snapshot m) ≡ length m.buf
  unfolding snapshot
  length-snapshot m v = elim (Bool-cases (ltb (length m.buf) m.size)) [
    | inl room ↦ rw room
    | inr full ↦ rw full (
        omega (
          arith,
          length-append (drop m.next m.buf) (take m.next m.buf),
          ap length (take-append-drop m.next m.buf),
          length-append (take m.next m.buf) (drop m.next m.buf),
        ))
  ]

  snapshot_full :
      (m : Memory A) → m.size ≤ length m.buf → snapshot m ≡ drop m.next m.buf ++ take m.next m.buf
  unfolding snapshot
  snapshot_full m h = rw (le→ltb _ _ h)

  snapshot_room : (m : Memory A) → length m.buf < m.size → snapshot m ≡ m.buf
  unfolding snapshot
  snapshot_room m h = rw (lt→ltb _ _ h)

  wrapped : Memory A → A → Memory A
  wrapped m e = record m { buf = set m.buf m.next e; next = (m.next + 1) % m.size }

  -- Reading the whole ring from behind the slot just written gives the old ring less its oldest.
  rotate_after :
      (xs : List A) (n size : ℕ) (e : A)
      → n < size
      → length xs ≡ size
      → drop ((n + 1) % size) (set xs n e) ++ take ((n + 1) % size) (set xs n e)
        ≡ drop 1 (drop n xs ++ take n xs) ++ e ∷ []
  rotate_after xs n size e h full = elim (next_cases n size h) [
    | inl (_, on) ↦ rw on (set-rotate xs n e (omega arith))
    | inr (last, round) ↦
        let k = length-set xs n e in
        let d = drop-length_le (suc n) (set xs n e) (omega arith) in
        let t = take-length_le (suc n) (set xs n e) (omega arith) in
        rw (round, append-nil (set xs n e)) ((rw (d, t) at (set-rotate xs n e (omega arith))))
  ]

  snapshot-wrap :
      (m : Memory A) (e : A)
      → IsValid m
      → m.size ≤ length m.buf
      → snapshot (store m e) ≡ drop 1 (snapshot m) ++ e ∷ []
  unfolding wrapped
  snapshot-wrap m e v full =
      rw (store_full m e full, snapshot_full m full)
        (snapshot_full (wrapped m e) (omega (arith, length-set m.buf m.next e))
          ∙ rotate_after m.buf m.next m.size e v.within (omega (arith, v.bounded)))

  appended : Memory A → A → Memory A
  appended m e = record m { buf = m.buf ++ e ∷ [] }

  snapshot_unwrapped : (m : Memory A) → m.next ≡ 0 → snapshot m ≡ m.buf
  unfolding snapshot
  snapshot_unwrapped m start = elim (Bool-cases (ltb (length m.buf) m.size)) [
    | inl room ↦ rw room
    | inr full ↦ rw (full, start) (append-nil m.buf)
  ]

  fits :
      (m : Memory A) (e : A)
      → IsValid m
      → length m.buf < m.size
      → snapshot (store m e) ≡ newest m.size (snapshot m ++ e ∷ [])
  unfolding appended
  fits m e v room =
      let k = length-append m.buf (e ∷ []) in
      let none_dropped : length (m.buf ++ e ∷ []) - m.size ≡ 0 = omega arith in
      rw (store_room m e room, snapshot_room m room, none_dropped)
        (snapshot_unwrapped (appended m e) (v.unwrapped room))

  wraps :
      (m : Memory A) (e : A)
      → IsValid m
      → m.size ≤ length m.buf
      → snapshot (store m e) ≡ newest m.size (snapshot m ++ e ∷ [])
  wraps m e v full =
      let k : length (snapshot m ++ e ∷ []) - m.size ≡ 1 =
        omega (arith, length-append (snapshot m) (e ∷ []), length-snapshot m v, v.bounded) in
      rw k (
        snapshot-wrap m e v full
        ∙ sym
            (drop-append 1 (snapshot m) (e ∷ []) (omega (arith, length-snapshot m v, v.positive))))

  snapshot-store :
      (m : Memory A) (e : A)
      → IsValid m
      → snapshot (store m e) ≡ newest m.size (snapshot m ++ e ∷ [])
  snapshot-store m e v = elim (Bool-cases (ltb (length m.buf) m.size)) [
    | inl room ↦ fits m e v (ltb→lt _ _ room)
    | inr full ↦ wraps m e v (ltb-false→le _ _ full)
  ]

  snapshot-send :
      (m : Memory A) (e : A)
      → IsValid m
      → snapshot (send m e) ≡ newest m.size (snapshot m ++ e ∷ [])
  unfolding send fan_out snapshot
  snapshot-send m e v = snapshot-store m e v

  size-send : (m : Memory A) (e : A) → (send m e).size ≡ m.size
  unfolding send fan_out store
  size-send m e = ground arith

  -- Cutting to the newest `n` early makes no difference to what is newest later.
  newest-newest : (n : ℕ) (xs ys : List A) → newest n (newest n xs ++ ys) ≡ newest n (xs ++ ys)
  newest-newest n xs ys =
      let cut = length xs - n in
      let short = length-drop cut xs in
      let joined = length-append (drop cut xs) ys in
      let whole = length-append xs ys in
      let again = length-drop cut (xs ++ ys) in
      let same : cut + (length (drop cut (xs ++ ys)) - n) ≡ length (xs ++ ys) - n = omega arith in
      rw
        (
          ← drop-append cut xs ys (omega arith),
          drop-drop (length (drop cut (xs ++ ys)) - n) cut (xs ++ ys),
          same,
        )
        refl

  newest_all : (n : ℕ) (xs : List A) → length xs ≤ n → newest n xs ≡ xs
  newest_all n xs h = let e : length xs - n ≡ 0 = omega arith in rw e

  send_all_window :
      (n : ℕ) (m : Memory A) (es : List A)
      → IsValid m
      → m.size ≡ n
      → snapshot (send_all m es) ≡ newest n (snapshot m ++ es)
  unfolding send_all
  send_all_window n m [] v h =
      rw (append-nil (snapshot m))
        (sym (newest_all n (snapshot m) (omega (arith, length-snapshot m v, v.bounded))))
  send_all_window n m (e ∷ es) v h =
      send_all_window n (send m e) es (send-IsValid m e v) (size-send m e ∙ h)
      ∙ ap (λ (shown : List A). newest n (shown ++ es))
          (snapshot-send m e v ∙ ap (λ (k : ℕ). newest k (snapshot m ++ e ∷ [])) h)
      ∙ newest-newest n (snapshot m ++ e ∷ []) es
      ∙ ap (newest n) (append_assoc (snapshot m) (e ∷ []) es)

  -- After any sends a ring shows the newest `size` events of those it showed before and those sent,
  -- oldest first.
  pub snapshot-send_all :
      (m : Memory A) (es : List A)
      → IsValid m
      → snapshot (send_all m es) ≡ newest m.size (snapshot m ++ es)
  snapshot-send_all m es v = send_all_window m.size m es v refl

  -- An emptied ring is well formed and keeps its size, so what it shows next starts afresh.
  pub clear-IsValid : (m : Memory A) → IsValid m → IsValid (clear m) × (snapshot (clear m) ≡ [])
  unfolding clear snapshot
  clear-IsValid m v = (
    record {
      positive = v.positive;
      bounded = omega arith;
      within = v.positive;
      unwrapped = λ _. refl;
    },
    rw (lt→ltb 0 m.size v.positive),
  )
