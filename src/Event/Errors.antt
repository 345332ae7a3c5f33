-- ===== src/Event/Errors.antt =====
-- errors.go and level.go on an open event: the error list, the level that an error sets, and an
-- explicit level.
pub mod Kept
use Prim.Native.String.{◌++◌ as concat}
use wlog.Base.{
  ℕ, zero, suc, ◌+◌, ◌-◌, ◌≡◌, refl, ◌∙◌, sym, ap, append_assoc, append-nil, map, String, Bool,
  true, false, Option, none, some, List, [], ◌∷◌, ◌++◌, leb, str_eq, if◌then◌else◌, length,
  length-append, length-take, arith, take,
}
use wlog.Base.Int.{pos}
use wlog.Value.{end}
use wlog.Event.{Event, ErrorInfo, max_error_list}
use wlog.Event.Writes.{drop_one}
use wlog.Event.Caps.{IsCapped}

abbrev pub debug_level : String
debug_level = "debug"

abbrev pub info_level : String
info_level = "info"

abbrev pub warn_level : String
warn_level = "warn"

abbrev pub error_level : String
error_level = "error"

-- `levelRank`: none for a name that is no level.
unfoldable pub level_rank : String → Option ℕ
level_rank level =
    if str_eq level debug_level
    then some 0
    else if str_eq level info_level
    then some 1
    else if str_eq level warn_level
    then some 2
    else if str_eq level error_level
    then some 3
    else none

abbrev pub known : Option ℕ → Bool
known none = false
known (some n) = true

unfoldable pub valid_level : String → Bool
valid_level level = known (level_rank level)

-- What stands in for the detail of an error whose extractor panicked.
abbrev pub panicked : String → ErrorInfo
panicked type_of = record {
  code = "INTERNAL";
  message = concat "[extractor: " (concat type_of " panicked]");
  kind = "";
  status = pos 0;
  cause = "";
  stack = "";
  type_name = "";
  causes = [];
  caller = "";
  why = "";
  fix = "";
  link = "";
  attrs = end;
  data_fields = end;
  internal = end;
}

-- `safeExtract`: `none` is a panic of the extractor. The second part says whether it is reported.
unfoldable pub safe_extract : String → Option ErrorInfo → ErrorInfo × Bool
safe_extract type_of (some info) = (info, false)
safe_extract type_of none = (panicked type_of, true)

-- The error that decided the outcome so far moves to the list, if there is room.
unfoldable pub shelve : Option ErrorInfo → Event → Event
shelve none e = e
shelve (some earlier) e =
    if leb max_error_list (length e.err_list)
    then drop_one e
    else record e { err_list = e.err_list ++ earlier ∷ [] }

-- `recordError`, from the extracted detail on; `line` is the place of the call.
unfoldable pub record_error : String → ErrorInfo → Event → Event
unfolding shelve
record_error line info e =
    let e' = shelve e.err_info e in
    record e' {
      err_info = some (if e.caller then record info { caller = line } else info);
      level = if e.level_set then e.level else error_level;
    }

-- `SetLevel` with a valid level.
unfoldable pub set_level : String → Event → Event
set_level level e = record e { level_set = true; level = level }

-- A call of `Error`: its place, and the detail of the error.
abbrev pub ErrorCall : Type 0
ErrorCall = String × ErrorInfo

-- A run of errors recorded one after the other.
unfoldable pub record_errors : List ErrorCall → Event → Event
record_errors [] e = e
record_errors ((line, info) ∷ calls) e = record_errors calls (record_error line info e)

shelve-IsCapped :
    {p : Option ℕ} (o : Option ErrorInfo) (e : Event) → IsCapped p e → IsCapped p (shelve o e)
unfolding shelve
shelve-IsCapped none e c = c
shelve-IsCapped (some earlier) e c = ground (arith, length-append e.err_list (earlier ∷ []))

pub record_error-IsCapped :
    {p : Option ℕ} (line : String) (info : ErrorInfo) (e : Event)
    → IsCapped p e
    → IsCapped p (record_error line info e)
unfolding record_error
record_error-IsCapped line info e c =
    let s = shelve-IsCapped e.err_info e c in
    record {
      keys_bounded = s.keys_bounded;
      memory_bounded = s.memory_bounded;
      errors_bounded = s.errors_bounded;
      child_of = s.child_of;
    }
