-- ===== src/Event/World.antt =====
-- The events of one process, and what happens to a write on an event that has been emitted
-- (detach.go). An event is named by its index, so that a parent and its children share it. Every
-- call takes the event's lock for its whole effect, so a run of goroutines is a sequence of calls.
pub mod Late
pub mod Safe
pub mod Reach
use wlog.Base.{
  ℕ, zero, suc, String, Bool, true, false, Option, none, some, List, [], ◌∷◌, ◌++◌, ◌+◌, leb, ltb,
  not, ◌&&◌, ◌==◌, str_eq, if◌then◌else◌, length, get_elem?, set,
}
use mathlib.Core.Option
use wlog.Value.{Fields, end, field, object, str, null, Value}
use wlog.Value.Maps.{get, put, as_object}
use wlog.Event.{Event, ErrorInfo, audit_field}
use wlog.Event.Writes.{count_dropped}
use wlog.Event.Errors.{valid_level, level_rank, info_level, set_level}

-- A reported problem: its code, and the source that it names.
pub record World : Type 0 where
  pub events : List Event
  pub problems : List (String × String)

pub report : String → String → World → World
report code source w = record w { problems = w.problems ++ (code, source) ∷ [] }

-- `recordLateWrite` from a parent on, with fuel for the chain of ancestors; `none` is a parent
-- that does not exist, or fuel that ran out.
pub late_at : (Option ℕ → World → Option World) → ℕ → Event → World → Option World
late_at next i e w =
    let up = next e.parent w in
    if e.sealed
    then up
    else some (record w { events = set w.events i (record e { late_writes = e.late_writes + 1 }) })

late_known : (Option ℕ → World → Option World) → ℕ → Option Event → World → Option World
late_known next i none w = none
late_known next i (some e) w = late_at next i e w

pub record_late_write : ℕ → Option ℕ → World → Option World
unfolding late_known
record_late_write fuel none w = some (report "WLOG_LATE_WRITE" "write" w)
record_late_write zero (some i) w = none
record_late_write (suc fuel) (some i) w =
    late_known (record_late_write fuel) i (get_elem? w.events i) w

-- A write with the lock of event `i` held.
write_known : ℕ → (Event → Event) → Option Event → World → Option World
write_known i f none w = none
write_known i f (some e) w =
    if e.sealed
    then record_late_write (length w.events) e.parent w
    else some (record w { events = set w.events i (f e) })

pub write : ℕ → (Event → Event) → World → Option World
unfolding write_known
write i f w = write_known i f (get_elem? w.events i) w

-- A write through a context: without an event it is reported, with what tried to write.
pub write_in : Option ℕ → String → (Event → Event) → World → Option World
write_in none what f w = some (report "WLOG_NO_EVENT" what w)
write_in (some i) what f w = write i f w

-- `CountDropped`, which says nothing without an event.
pub count_dropped_in : Option ℕ → ℕ → World → Option World
unfolding write
count_dropped_in none n w = some w
count_dropped_in (some i) n w = if n == 0 then some w else write i (count_dropped n) w

-- `SetLevel`: a name that is no level is reported, and the event keeps its level.
pub set_level_in : Option ℕ → String → World → Option World
set_level_in none level w = some (report "WLOG_NO_EVENT" "level" w)
set_level_in (some i) level w =
    if valid_level level
    then write i (set_level level) w
    else some (report "WLOG_INVALID_CONFIG" "SetLevel" w)

-- `HasEvent`
unsealed : Option Event → Bool
unsealed none = false
unsealed (some e) = if e.sealed then false else true

pub has_event : Option ℕ → World → Bool
unfolding unsealed
has_event none w = false
has_event (some i) w = unsealed (get_elem? w.events i)

-- The fields of an event that `Start` and `Detach` give it.
abbrev pub fresh_event : Fields → String → String → Option ℕ → Option (List String) → Bool → Event
fresh_event fields operation event_id parent strict_keys caller = record {
  fields = fields;
  operation = operation;
  kind = "work";
  event_id = event_id;
  sealed = false;
  dropped = 0;
  size = 0;
  dropped_logs = 0;
  level = info_level;
  level_set = false;
  err_info = none;
  err_list = [];
  parent = parent;
  late_writes = 0;
  strict_keys = strict_keys;
  unknown_keys = [];
  caller = caller;
}

-- `Start`, past the choice of the logger: the new event is the last of the world.
unfoldable pub start :
    String → String → String → String → Option (List String) → Bool → World → World
start operation event_id trace_id span_id strict caller w =
    let trace = object (field "trace_id" (str trace_id) (field "span_id" (str span_id) end)) in
    record w {
      events =
          w.events
          ++ fresh_event (field "trace" trace end) operation event_id none strict caller ∷ [];
    }

-- `maps.Copy(dst, src)`
copy_into : Fields → Fields → Fields
copy_into dst end = dst
copy_into dst (field k v src) = copy_into (put k v dst) src

abbrev or_null : Option Value → Value
or_null none = null
or_null (some v) = v

-- The child joins the parent's trace, names its own span and points at the parent's.
join_trace : Option Fields → String → Fields → Fields
join_trace none event_id trace = trace
join_trace (some pt) event_id trace =
    put "parent_event_id" (str event_id)
      (put "parent_span_id" (or_null (get "span_id" pt)) (copy_into trace pt))

pub child_trace : String → String → Event → Fields
unfolding join_trace copy_into
child_trace trace_id span_id parent = put "parent_operation" (str parent.operation) (
    put "span_id" (str span_id) (
      join_trace (as_object (get "trace" parent.fields)) parent.event_id
        (field "trace_id" (str trace_id) end)))

detached :
    String
    → String
    → String
    → String
    → Option (List String)
    → Bool
    → ℕ
    → Option Event
    → Option Event
detached operation event_id trace_id span_id strict caller i none = none
detached operation event_id trace_id span_id strict caller i (some p) = some (
    fresh_event (field "trace" (object (child_trace trace_id span_id p)) end) operation event_id
      (some i) strict caller)

-- `Detach`, past the choice of the logger. Without an event on the context the new one has no trace
-- yet; `none` is a parent that does not exist.
unfoldable pub detach :
    String
    → String
    → String
    → String
    → Option (List String)
    → Bool
    → Option ℕ
    → World
    → Option World
unfolding detached
detach operation event_id trace_id span_id strict caller none w =
    some
      (record w { events = w.events ++ fresh_event end operation event_id none strict caller ∷ [] })
detach operation event_id trace_id span_id strict caller (some i) w =
    Option.map (λ child. record w { events = w.events ++ child ∷ [] })
      (detached operation event_id trace_id span_id strict caller i (get_elem? w.events i))

-- An id that is not set: no value, nil or the empty text.
is_unset : Option Value → Bool
is_unset none = true
is_unset (some null) = true
is_unset (some (str s)) = str_eq s ""
is_unset (some _) = false

fill : String → String → Fields → Fields
unfolding is_unset
fill k id m = if is_unset (get k m) then put k (str id) m else m

-- The trace that an event ends with: its ids are filled in, and an event without a trace gets one.
-- No test of the slots stands before it.
with_trace : String → String → Option Value → Fields → Fields
unfolding fill
with_trace trace_id span_id none m =
    put "trace" (object (field "trace_id" (str trace_id) (field "span_id" (str span_id) end))) m
with_trace trace_id span_id (some (object t)) m =
    put "trace" (object (fill "span_id" span_id (fill "trace_id" trace_id t))) m
with_trace trace_id span_id (some _) m = m

name_trace : String → String → Event → Event
unfolding with_trace
name_trace trace_id span_id e =
    if str_eq e.kind "log"
    then e
    else record e { fields = with_trace trace_id span_id (get "trace" e.fields) e.fields }

-- What the Logger of an event knows when the event ends.
pub record Ending : Type 0 where
  pub is_closed : Bool
  pub min_level : String
  pub trace_id : String
  pub span_id : String

is_present : Option Value → Bool
is_present none = false
is_present (some null) = false
is_present (some _) = true

-- `levelRank[level]` of a name that is no level is 0.
rank_or_zero : Option ℕ → ℕ
rank_or_zero none = 0
rank_or_zero (some n) = n

-- The level filter, which no event with audit records is held by.
filtered : Ending → Event → Bool
unfolding is_present rank_or_zero level_rank
filtered l e =
    not (is_present (get audit_field e.fields))
    && ltb (rank_or_zero (level_rank e.level)) (rank_or_zero (level_rank l.min_level))

-- What `emit` does to an event while its Logger is open: from here on every write is late.
ended : Ending → Event → Event
unfolding filtered name_trace
ended l e =
    if filtered l e
    then record e { sealed = true }
    else name_trace l.trace_id l.span_id (record e { sealed = true })

seal_known : Ending → ℕ → Option Event → World → Option World
unfolding ended
seal_known l i none w = none
seal_known l i (some e) w =
    if l.is_closed
    then some (report "WLOG_LOGGER_CLOSED" "emit" w)
    else some (record w { events = set w.events i (ended l e) })

unfoldable pub seal : Ending → ℕ → World → Option World
unfolding seal_known
seal l i w = seal_known l i (get_elem? w.events i) w
