-- ===== src/Pipeline/Backoff.antt =====
-- retryDelay of pipeline/pipeline.go. A Go duration is a signed 64-bit integer, kept here as its
-- word of two's complement; a product wraps around.
use native.Mathlib.Nat.{mod-eq_of_lt}
use wlog.Base.{
  ℕ, ◌+◌, ◌-◌, ◌*◌, ◌/◌, ◌%◌, ◌^◌, ◌≤◌, ◌<◌, ◌≡◌, refl, ap, ap₂, ◌∙◌, min, Bool, false, arith,
  if◌then◌else◌, ltb, lt→ltb, le→ltb,
}
use wlog.Base.Int.{ℤ, pos, negsuc}
use wlog.Pipeline.{Config, BackoffKind, exponential, linear, fixed}

-- 2 ^ 64
abbrev pub word_size : ℕ
word_size = 18446744073709551616

-- 2 ^ 63
abbrev pub sign_bit : ℕ
sign_bit = 9223372036854775808

unfoldable pub to_word : ℤ → ℕ
to_word (pos n) = n % word_size
to_word (negsuc n) = word_size - 1 - n % word_size

-- A word that stands for a number above zero.
abbrev pub is_positive : ℕ → Bool
is_positive d = if ltb d sign_bit then ltb 0 d else false

-- `min(attempt-1, 30)`, and 0 below 0.
abbrev pub shift_of : ℕ → ℕ
shift_of attempt = min (attempt - 1) 30

unfoldable pub base_delay : BackoffKind → ℤ → ℕ → ℕ
base_delay linear initial attempt = (to_word initial * attempt) % word_size
base_delay fixed initial attempt = to_word initial
base_delay exponential initial attempt = (to_word initial * 2 ^ shift_of attempt) % word_size

-- `min` with the longest wait, for a signed duration: one below zero stays.
unfoldable pub capped : ℕ → ℕ → ℕ
capped max_delay d = if ltb d sign_bit then min d max_delay else d

unfoldable pub curve : Config → ℕ → ℕ
unfolding base_delay capped
curve c attempt = capped c.max_delay (base_delay c.backoff c.initial_delay attempt)

-- What `rand.Int63n` draws below. No draw is made for a delay that is not above zero.
unfoldable pub jitter_bound : Config → ℕ → ℕ
unfolding curve
jitter_bound c attempt = curve c attempt / 5 + 1

unfoldable pub jittered : ℕ → ℕ → ℕ → ℕ
unfolding capped
jittered max_delay d jitter =
    if is_positive d then capped max_delay ((d + jitter) % word_size) else 0

unfoldable pub retry_delay : Config → ℕ → ℕ → ℕ
unfolding jittered curve
retry_delay c attempt jitter = jittered c.max_delay (curve c attempt) jitter

-- The delay that the options ask for, in numbers without a bound.
unfoldable pub ideal : BackoffKind → ℕ → ℕ → ℕ
ideal linear initial attempt = initial * attempt
ideal fixed initial attempt = initial
ideal exponential initial attempt = initial * 2 ^ shift_of attempt

mod_small : (n : ℕ) → n < sign_bit → n % word_size ≡ n
mod_small n h = mod-eq_of_lt (omega arith)

base_delay-ideal :
    (kind : BackoffKind) (n attempt : ℕ)
    → n < sign_bit
    → ideal kind n attempt < sign_bit
    → base_delay kind (pos n) attempt ≡ ideal kind n attempt
unfolding base_delay ideal to_word
base_delay-ideal linear n attempt small h = rw (mod_small n small) (mod_small (n * attempt) h)
base_delay-ideal fixed n attempt small h = mod_small n small
base_delay-ideal exponential n attempt small h =
    rw (mod_small n small) (mod_small (n * 2 ^ shift_of attempt) h)

-- A delay within range takes the jitter, and then the cap.
jittered_bounds :
    (max_delay d jitter : ℕ)
    → max_delay ≤ 4611686018427387904
    → d ≤ max_delay
    → 1 ≤ d
    → jitter < d / 5 + 1
    → (d ≤ jittered max_delay d jitter) × (jittered max_delay d jitter ≤ max_delay)
unfolding jittered capped
jittered_bounds max_delay d jitter bounded le least drawn =
    let fits : (d + jitter) % word_size ≡ d + jitter = mod-eq_of_lt (omega arith) in
    rw
      (
        fits,
        lt→ltb 0 d (omega arith),
        lt→ltb d sign_bit (omega arith),
        lt→ltb (d + jitter) sign_bit (omega arith),
      )
      (omega arith, omega arith)

curve-ideal :
    (c : Config) (n attempt : ℕ)
    → c.initial_delay ≡ pos n
    → n < sign_bit
    → ideal c.backoff n attempt < sign_bit
    → curve c attempt ≡ min (ideal c.backoff n attempt) c.max_delay
unfolding curve capped
curve-ideal c n attempt e small h =
    ap (capped c.max_delay)
      (ap (λ d. base_delay c.backoff d attempt) e ∙ base_delay-ideal c.backoff n attempt small h)
    ∙ ap (λ b. if b then min (ideal c.backoff n attempt) c.max_delay else ideal c.backoff n attempt)
        (lt→ltb _ _ h)

-- For a positive InitialDelay whose curve at the attempt fits a signed 64-bit integer, a MaxDelay
-- of at most 2 ^ 62 nanoseconds and a jitter that `rand.Int63n` can draw, the wait is at least the
-- delay of the curve or MaxDelay, whichever is less, and at most MaxDelay.
pub retry_delay_bounds :
    (c : Config) (n attempt jitter : ℕ)
    → c.initial_delay ≡ pos n
    → n < sign_bit
    → 1 ≤ ideal c.backoff n attempt
    → ideal c.backoff n attempt < sign_bit
    → 1 ≤ c.max_delay
    → c.max_delay ≤ 4611686018427387904
    → jitter < jitter_bound c attempt
    → (min (ideal c.backoff n attempt) c.max_delay ≤ retry_delay c attempt jitter)
      × (retry_delay c attempt jitter ≤ c.max_delay)
unfolding retry_delay jitter_bound
retry_delay_bounds c n attempt jitter e small least h positive bounded drawn =
    let known = curve-ideal c n attempt e small h in
    let (low, high) =
      jittered_bounds c.max_delay (curve c attempt) jitter bounded (omega (arith, known))
        (omega (arith, known)) drawn in
    (omega (arith, known, low), high)

negative_no_wait :
    (max_delay d jitter : ℕ) → sign_bit ≤ d → jittered max_delay (capped max_delay d) jitter ≡ 0
unfolding jittered capped
negative_no_wait max_delay d jitter h = rw (le→ltb d sign_bit h, le→ltb d sign_bit h) refl

late_shift : (attempt : ℕ) → 31 ≤ attempt → 2 ^ shift_of attempt ≡ 1073741824
late_shift attempt late = ap (λ n. 2 ^ n) (let e : shift_of attempt ≡ 30 = omega arith in e)

base_delay-late :
    (n attempt : ℕ)
    → 31 ≤ attempt
    → n * 1073741824 < word_size
    → base_delay exponential (pos n) attempt ≡ n * 1073741824
unfolding base_delay to_word
base_delay-late n attempt late high =
    let small : n % word_size ≡ n = mod-eq_of_lt (omega arith) in
    rw (small, late_shift attempt late) (mod-eq_of_lt high)

-- A positive InitialDelay of which 2 ^ 30 times is between 2 ^ 63 and 2 ^ 64 nanoseconds, such as
-- ten seconds, gives no wait at all from the 31st attempt of the exponential curve on.
pub retry_delay_overflow :
    (c : Config) (n attempt jitter : ℕ)
    → c.backoff ≡ exponential
    → c.initial_delay ≡ pos n
    → 31 ≤ attempt
    → sign_bit ≤ n * 1073741824
    → n * 1073741824 < word_size
    → retry_delay c attempt jitter ≡ 0
unfolding retry_delay curve
retry_delay_overflow c n attempt jitter kind e late low high =
    let base : base_delay c.backoff c.initial_delay attempt ≡ n * 1073741824 =
      ap₂ (λ k d. base_delay k d attempt) kind e ∙ base_delay-late n attempt late high in
    negative_no_wait c.max_delay (base_delay c.backoff c.initial_delay attempt) jitter
      (omega (arith, base))
