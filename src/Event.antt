-- ===== src/Event.antt =====
-- event.go, logs.go, level.go and errors.go: one wide event between Start and its end, and the
-- writes that land on it. Each function here is the part of the source's function that runs with
-- the event's lock held on an event that is not sealed; Event/World.antt has the sealed case and
-- the walk to a parent. Values are trees (Value.antt), so a stored value is the owned copy. A
-- counter is a number without a bound.
pub mod Writes
pub mod Caps
pub mod Accounts
pub mod World
pub mod Errors
mod Tests
use wlog.Base.{ℕ, String, Bool, Option, List}
use wlog.Base.Int.{ℤ}
use wlog.Value.{Fields}

abbrev pub max_keys : ℕ
max_keys = 200

abbrev pub max_audit_records : ℕ
max_audit_records = 20

abbrev pub audit_field : String
audit_field = "audit"

abbrev pub max_group_fields : ℕ
max_group_fields = 50

abbrev pub max_array_len : ℕ
max_array_len = 200

-- 256 << 10
abbrev pub max_event_size : ℕ
max_event_size = 262144

-- 4 << 20
abbrev pub max_event_memory : ℕ
max_event_memory = 4194304

abbrev pub max_log_lines : ℕ
max_log_lines = 50

abbrev pub max_error_list : ℕ
max_error_list = 10

pub record ErrorInfo : Type 0 where
  pub code : String
  pub message : String
  pub kind : String
  pub status : ℤ
  pub cause : String
  pub stack : String
  pub type_name : String
  pub causes : List String
  pub caller : String
  pub why : String
  pub fix : String
  pub link : String
  pub attrs : Fields
  pub data_fields : Fields
  pub internal : Fields

-- `errInfo` and `strictKeys` are pointers that may be nil. `parent` is an index into the world.
pub record Event : Type 0 where
  pub fields : Fields
  pub operation : String
  pub kind : String
  pub event_id : String
  pub sealed : Bool
  pub dropped : ℕ
  pub size : ℕ
  pub dropped_logs : ℕ
  pub level : String
  pub level_set : Bool
  pub err_info : Option ErrorInfo
  pub err_list : List ErrorInfo
  pub parent : Option ℕ
  pub late_writes : ℕ
  pub strict_keys : Option (List String)
  pub unknown_keys : List String
  pub caller : Bool
