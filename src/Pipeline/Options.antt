-- ===== src/Pipeline/Options.antt =====
-- pipeline/config.go: the options of Wrap, with their floors, and `admits` of pipeline.go.
use wlog.Base.{
  ℕ, ◌*◌, ◌≤◌, max, String, Bool, true, Option, none, some, List, [], ◌∷◌, arith, str_eq,
  if◌then◌else◌, leb,
}
use wlog.Base.Int.{ℤ, pos, negsuc}
use wlog.Value.{Value, Fields, str}
use wlog.Value.Maps.{get, has}
use wlog.Pipeline.{Config, BackoffKind, exponential}

abbrev pub millisecond : ℕ
millisecond = 1000000

abbrev pub second : ℕ
second = 1000000000

abbrev pub default_config : Config
default_config = record {
  batch_size = 50;
  min_level = none;
  batch_interval = 5 * second;
  max_attempts = 3;
  backoff = exponential;
  initial_delay = pos second;
  max_delay = 30 * second;
  max_buffer = 1000;
}

unfoldable pub level_ranks : String → Option ℕ
level_ranks level =
    if str_eq level "debug"
    then some 0
    else if str_eq level "info"
    then some 1
    else if str_eq level "warn"
    then some 2
    else if str_eq level "error"
    then some 3
    else none

-- `max(n, low)` of a Go integer and a low limit that is not negative.
unfoldable pub at_least : ℕ → ℤ → ℕ
at_least low (pos n) = max n low
at_least low (negsuc n) = low

-- The calls that make an Option.
pub data Setting : Type 0 where
  batch_size : ℤ → Setting
  batch_interval : ℤ → Setting
  max_attempts : ℤ → Setting
  backoff : BackoffKind → Setting
  initial_delay : ℤ → Setting
  max_delay : ℤ → Setting
  min_level : String → Setting
  max_buffer : ℤ → Setting

-- A level name that is not known leaves the option as it is.
with_min_level : Option ℕ → Config → Config
with_min_level none c = c
with_min_level (some rank) c = record c { min_level = some rank }

pub apply : Setting → Config → Config
unfolding with_min_level
apply (batch_size n) c = record c { batch_size = at_least 1 n }
apply (batch_interval d) c = record c { batch_interval = at_least millisecond d }
apply (max_attempts n) c = record c { max_attempts = at_least 1 n }
apply (backoff kind) c = record c { backoff = kind }
apply (initial_delay d) c = record c { initial_delay = d }
apply (max_delay d) c = record c { max_delay = at_least millisecond d }
apply (min_level level) c = with_min_level (level_ranks level) c
apply (max_buffer n) c = record c { max_buffer = at_least 1 n }

pub configured : Config → List Setting → Config
configured c [] = c
configured c (o ∷ os) = configured (apply o c) os

pub configure : List Setting → Config
configure opts = configured default_config opts

pub level_of : Option Value → String
level_of (some (str level)) = level
level_of _ = ""

-- The last test: the event's rank, where it has one, against the minimum.
pub reaches : ℕ → Option ℕ → Bool
reaches low none = true
reaches low (some rank) = leb low rank

pub judged : Option ℕ → Fields → Bool
unfolding reaches level_of
judged none event = true
judged (some low) event =
    if has "audit" event then true else reaches low (level_ranks (level_of (get "level" event)))

unfoldable pub admits : Config → Fields → Bool
unfolding judged
admits c event = judged c.min_level event

-- The limits that the worker relies on.
pub record IsUsable (c : Config) : Type 0 where
  pub batch_size : 1 ≤ c.batch_size
  pub batch_interval : millisecond ≤ c.batch_interval
  pub max_attempts : 1 ≤ c.max_attempts
  pub max_delay : millisecond ≤ c.max_delay
  pub max_buffer : 1 ≤ c.max_buffer

at_least_le : (low : ℕ) (n : ℤ) → low ≤ at_least low n
unfolding at_least
at_least_le low (pos n) = omega arith
at_least_le low (negsuc n) = omega arith

with_min_level-IsUsable :
    (rank : Option ℕ) (c : Config) → IsUsable c → IsUsable (with_min_level rank c)
unfolding with_min_level
with_min_level-IsUsable none c u = u
with_min_level-IsUsable (some rank) c u = record {
  batch_size = u.batch_size;
  batch_interval = u.batch_interval;
  max_attempts = u.max_attempts;
  max_delay = u.max_delay;
  max_buffer = u.max_buffer;
}

apply-IsUsable : (o : Setting) (c : Config) → IsUsable c → IsUsable (apply o c)
unfolding apply
apply-IsUsable (batch_size n) c u = record {
  batch_size = at_least_le 1 n;
  batch_interval = u.batch_interval;
  max_attempts = u.max_attempts;
  max_delay = u.max_delay;
  max_buffer = u.max_buffer;
}
apply-IsUsable (batch_interval d) c u = record {
  batch_size = u.batch_size;
  batch_interval = at_least_le millisecond d;
  max_attempts = u.max_attempts;
  max_delay = u.max_delay;
  max_buffer = u.max_buffer;
}
apply-IsUsable (max_attempts n) c u = record {
  batch_size = u.batch_size;
  batch_interval = u.batch_interval;
  max_attempts = at_least_le 1 n;
  max_delay = u.max_delay;
  max_buffer = u.max_buffer;
}
apply-IsUsable (backoff kind) c u = record {
  batch_size = u.batch_size;
  batch_interval = u.batch_interval;
  max_attempts = u.max_attempts;
  max_delay = u.max_delay;
  max_buffer = u.max_buffer;
}
apply-IsUsable (initial_delay d) c u = record {
  batch_size = u.batch_size;
  batch_interval = u.batch_interval;
  max_attempts = u.max_attempts;
  max_delay = u.max_delay;
  max_buffer = u.max_buffer;
}
apply-IsUsable (max_delay d) c u = record {
  batch_size = u.batch_size;
  batch_interval = u.batch_interval;
  max_attempts = u.max_attempts;
  max_delay = at_least_le millisecond d;
  max_buffer = u.max_buffer;
}
apply-IsUsable (min_level level) c u = with_min_level-IsUsable (level_ranks level) c u
apply-IsUsable (max_buffer n) c u = record {
  batch_size = u.batch_size;
  batch_interval = u.batch_interval;
  max_attempts = u.max_attempts;
  max_delay = u.max_delay;
  max_buffer = at_least_le 1 n;
}

configured-IsUsable : (opts : List Setting) (c : Config) → IsUsable c → IsUsable (configured c opts)
unfolding configured
configured-IsUsable [] c u = u
configured-IsUsable (o ∷ os) c u = configured-IsUsable os (apply o c) (apply-IsUsable o c u)

-- Whatever options Wrap is given, a batch and the buffer hold at least one event, a batch is tried
-- at least once, and the batch interval and the longest wait are at least a millisecond.
pub configure-IsUsable : (opts : List Setting) → IsUsable (configure opts)
unfolding configure
configure-IsUsable opts =
    let start : IsUsable default_config = record {
      batch_size = omega arith;
      batch_interval = omega arith;
      max_attempts = omega arith;
      max_delay = omega arith;
      max_buffer = omega arith;
    } in
    configured-IsUsable opts default_config start
