-- ===== src/Pipeline.antt =====
-- pipeline/: the drain that batches events for a Sender, retries a failed batch and drops the
-- oldest event of a full buffer. A time and a wait are nanoseconds. The Sender, the wait between
-- two tries and the random jitter are not code of this repository: they are the operations of an
-- `Outside`, which passes a state on, so each may answer anything at each call. The record of every
-- `reportDrop` call stands for the caller's OnDropped.
pub mod Fanout
pub mod Options
pub mod Buffer
pub mod Partial
pub mod Counts
pub mod Batch
pub mod Run
pub mod Reports
mod Tests
pub mod Backoff
use wlog.Base.{ℕ, String, Bool, Option, List}
use wlog.Base.Int.{ℤ}
use wlog.Value.{Fields}

pub data BackoffKind : Type 0 where
  exponential : BackoffKind
  linear : BackoffKind
  fixed : BackoffKind

pub record Config : Type 0 where
  pub batch_size : ℕ
  pub min_level : Option ℕ
  pub batch_interval : ℕ
  pub max_attempts : ℕ
  pub backoff : BackoffKind
  pub initial_delay : ℤ
  pub max_delay : ℕ
  pub max_buffer : ℕ

-- An index of a PartialError is a Go `int`, which may be negative.
pub record PartialError : Type 0 where
  pub retry : List ℤ
  pub dropped : List ℤ
  pub reason : String

pub record RetryError : Type 0 where
  pub retryable : Bool
  pub retry_after : ℤ

-- What `errors.As` finds in an error. A PartialError that is found may be a nil pointer.
pub record SendError : Type 0 where
  pub as_partial : Option (Option PartialError)
  pub as_retry : Option RetryError

-- What a call of the Sender ends with.
pub data Answer : Type 0 where
  delivered : Answer
  failed : SendError → Answer
  panicked : Answer

-- The error of a drop report: none, errClosed, or the last error of the batch.
pub data Cause : Type 0 where
  full : Cause
  closed : Cause
  unsent : Option SendError → Cause

module _ {ℓ} (S : Type ℓ) where
  pub record Outside : Type ℓ where
    pub send_batch : S → List Fields → S × Answer
    pub wait : S → ℕ → S × Bool
    pub random : S → ℕ → S × ℕ

pub record Worker : Type 0 where
  pub buf : List Fields
  pub oldest_time : ℕ
  pub is_closed : Bool
  pub sent : ℕ
  pub dropped : ℕ
  pub retries : ℕ
  pub batches : ℕ
  pub reported : List (List Fields × Cause)
