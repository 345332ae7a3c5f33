-- ===== src/Pipeline/Buffer/Bounds.antt =====
-- What Send leaves in the buffer.
use wlog.Base.{
  ℕ, ◌+◌, ◌≤◌, ◌≡◌, refl, ap, ◌∙◌, Bool, true, false, Option, none, some, List, [], ◌∷◌, ◌++◌,
  arith, if◌then◌else◌, leb, length, drop, Bool-cases, inl, inr, length-append,
}
use wlog.Value.{Fields}
use wlog.Value.Maps.{has, get}
use wlog.Pipeline.{Config, Worker, closed}
use wlog.Pipeline.Options.{admits, judged, reaches, level_ranks, level_of}
use wlog.Pipeline.Buffer.{lose, push, push_full, enqueue, send}

push_full-length :
    (now : ℕ) (e : Fields) (buf : List Fields) (w : Worker) (n : ℕ)
    → w.buf ≡ buf
    → 1 ≤ n
    → length buf ≤ n
    → length (push_full now e buf w).buf ≤ n
unfolding push_full push lose
push_full-length now e [] w n same some_room fits =
    omega (arith, ap length same, length-append w.buf (e ∷ []))
push_full-length now e (old ∷ rest) w n same some_room fits =
    omega (arith, length-append rest (e ∷ []))

enqueue-length :
    (c : Config) (now : ℕ) (e : Fields) (w : Worker)
    → 1 ≤ c.max_buffer
    → length w.buf ≤ c.max_buffer
    → length (enqueue c now e w).buf ≤ c.max_buffer
unfolding enqueue push
enqueue-length c now e w some_room fits = elim (Bool-cases (leb c.max_buffer (length w.buf))) [
  | inl no_room ↦ rw no_room (push_full-length now e w.buf w c.max_buffer refl some_room fits)
  | inr room ↦ rw room (
      let below : length w.buf + 1 ≤ c.max_buffer = ground (arith, room) in
      omega (arith, length-append w.buf (e ∷ []), below))
]

pub send-length :
    (c : Config) (now : ℕ) (e : Fields) (w : Worker)
    → 1 ≤ c.max_buffer
    → length w.buf ≤ c.max_buffer
    → length (send c now e w).buf ≤ c.max_buffer
unfolding send lose
send-length c now e w some_room fits = elim (Bool-cases (admits c e)) [
  | inl passes ↦ rw passes (sent_when w.is_closed)
  | inr filtered ↦ rw filtered fits
]
  where
    sent_when :
        (shut : Bool)
        → length (if shut then lose (e ∷ []) closed w else enqueue c now e w).buf ≤ c.max_buffer
    sent_when true = fits
    sent_when false = enqueue-length c now e w some_room fits

-- The oldest event of a full buffer goes.
push_full-buf :
    (now : ℕ) (e : Fields) (buf : List Fields) (w : Worker)
    → w.buf ≡ buf
    → (push_full now e buf w).buf ≡ drop 1 buf ++ e ∷ []
unfolding push_full push lose
push_full-buf now e [] w same = ap (λ es. es ++ e ∷ []) same
push_full-buf now e (old ∷ rest) w same = refl

enqueue-buf :
    (c : Config) (now : ℕ) (e : Fields) (w : Worker)
    → (enqueue c now e w).buf
      ≡ (if leb c.max_buffer (length w.buf) then drop 1 w.buf else w.buf) ++ e ∷ []
unfolding enqueue push
enqueue-buf c now e w = elim (Bool-cases (leb c.max_buffer (length w.buf))) [
  | inl no_room ↦ rw no_room (push_full-buf now e w.buf w refl)
  | inr room ↦ rw room refl
]

admits-audit : (c : Config) (e : Fields) → has "audit" e ≡ true → admits c e ≡ true
unfolding admits
admits-audit c e audit = judged-audit c.min_level
  where
    judged-audit : (low : Option ℕ) → judged low e ≡ true
    judged-audit none = refl
    judged-audit (some low) =
        ap (λ b. if b then true else reaches low (level_ranks (level_of (get "level" e)))) audit

-- On a pipeline that is not closed, an event with audit records is always buffered, as the newest
-- event, whatever MinLevel is: a full buffer gives up its oldest event for it, and no other event
-- is lost.
pub send-audit :
    (c : Config) (now : ℕ) (e : Fields) (w : Worker)
    → has "audit" e ≡ true
    → w.is_closed ≡ false
    → (send c now e w).buf
      ≡ (if leb c.max_buffer (length w.buf) then drop 1 w.buf else w.buf) ++ e ∷ []
unfolding send
send-audit c now e w audit is_open =
    ap
      (λ b.
        (if b then if w.is_closed then lose (e ∷ []) closed w else enqueue c now e w else w).buf)
      (admits-audit c e audit)
    ∙ ap (λ b. (if b then lose (e ∷ []) closed w else enqueue c now e w).buf) is_open
    ∙ enqueue-buf c now e w
