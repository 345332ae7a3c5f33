-- ===== src/Event/World/Reach.antt =====
-- Every history of starts, detaches, writes and ends, in any order that the locks allow.

use wlog.Base.{
  ◌==◌, ℕ, ◌≡◌, sym, ◌∙◌, ap, subst, String, Bool, Option, none, some, List, [], arith,
  if◌then◌else◌, inl, inr, Bool-cases,
}
use wlog.Value.{Value, Fields, field}
use wlog.Event.{Event, ErrorInfo}
use wlog.Event.Writes
use wlog.Event.Caps.{
  IsCapped, set-IsCapped, set_group-IsCapped, update_group-IsCapped, append-IsCapped,
  append_log-IsCapped,
}
use wlog.Event.Errors.{record_error, record_error-IsCapped, set_level, valid_level}
use wlog.Event.World.{
  World, report, write, write_in, set_level_in, count_dropped_in, start, detach, seal, Ending,
}
use wlog.Event.World.Safe.Ends.{seal-IsSafe}
use wlog.Event.World.Safe.{
  IsSafe, add-IsSafe, report-IsSafe, write-IsSafe, fresh-IsCapped, detach-IsSafe,
}

-- A write that a caller makes through the package's functions. `SetGroup` with no pairs returns
-- before it looks at the event, so a call has at least one.
pub data Call : Type 0 where
  sets : String → Value → Call
  sets_group : String → String → Value → Fields → Call
  updates_group : String → (Fields → Fields) → Call
  appends : String → Value → Call
  appends_log : Value → Call
  records_error : String → ErrorInfo → Call
  sets_level : String → Call

pub run_call : Call → Event → Event
run_call (sets k v) = Writes.set k v
run_call (sets_group name k v rest) = Writes.set_group name (field k v rest)
run_call (updates_group name update) = Writes.update_group name update
run_call (appends k v) = Writes.append k v
run_call (appends_log line) = Writes.append_log line
run_call (records_error line info) = record_error line info
run_call (sets_level level) = set_level level

pub data Step (w : World) : World → Type 0 where
  starts :
      (op id t s : String) (strict : Option (List String)) (c : Bool)
      → Step w (start op id t s strict c w)
  detaches :
      (op id t s : String) (strict : Option (List String)) (c : Bool) (ctx : Option ℕ) {w' : World}
      → detach op id t s strict c ctx w ≡ some w'
      → Step w w'
  writes :
      (ctx : Option ℕ) (what : String) (call : Call) {w' : World}
      → write_in ctx what (run_call call) w ≡ some w'
      → Step w w'
  levels :
      (ctx : Option ℕ) (level : String) {w' : World}
      → set_level_in ctx level w ≡ some w'
      → Step w w'
  counts : (ctx : Option ℕ) (n : ℕ) {w' : World} → count_dropped_in ctx n w ≡ some w' → Step w w'
  ends : (l : Ending) (i : ℕ) {w' : World} → seal l i w ≡ some w' → Step w w'

pub data Reach (w : World) : World → Type 0 where
  here : Reach w w
  next : {u v : World} → Reach w u → Step u v → Reach w v

pub run_call-IsCapped :
    {p : Option ℕ} (call : Call) (e : Event) → IsCapped p e → IsCapped p (run_call call e)
unfolding run_call
run_call-IsCapped (sets k v) e c = set-IsCapped k v e c
run_call-IsCapped (sets_group name k v rest) e c = set_group-IsCapped name (field k v rest) e c
run_call-IsCapped (updates_group name update) e c = update_group-IsCapped name update e c
run_call-IsCapped (appends k v) e c = append-IsCapped k v e c
run_call-IsCapped (appends_log line) e c = append_log-IsCapped line e c
run_call-IsCapped (records_error line info) e c = record_error-IsCapped line info e c
run_call-IsCapped (sets_level level) e c = unfold set_level in (ground arith)

abbrev invalid : World → Option World
invalid w = some (report "WLOG_INVALID_CONFIG" "SetLevel" w)

report_then :
    (code source : String) (w w' : World)
    → IsSafe w
    → some (report code source w) ≡ some w'
    → IsSafe w'
report_then code source w w' safe h =
    let same : report code source w ≡ w' = cc in
    subst IsSafe same (report-IsSafe code source w safe)

level-IsSafe :
    (ctx : Option ℕ) (level : String) (w w' : World)
    → IsSafe w
    → set_level_in ctx level w ≡ some w'
    → IsSafe w'
unfolding set_level_in run_call
level-IsSafe none level w w' safe h = report_then "WLOG_NO_EVENT" "level" w w' safe h
level-IsSafe (some i) level w w' safe h = elim (Bool-cases (valid_level level)) [
  | inl good ↦
      write-IsSafe i (set_level level) w w' (λ e. run_call-IsCapped (sets_level level) e) safe
        (sym (ap (λ (b : Bool). if b then write i (set_level level) w else invalid w) good) ∙ h)
  | inr bad ↦
      report_then "WLOG_INVALID_CONFIG" "SetLevel" w w' safe
        (sym (ap (λ (b : Bool). if b then write i (set_level level) w else invalid w) bad) ∙ h)
]

count_dropped_call-IsCapped :
    {p : Option ℕ} (n : ℕ) (e : Event) → IsCapped p e → IsCapped p (Writes.count_dropped n e)
unfolding Writes.count_dropped
count_dropped_call-IsCapped n e c = ground arith

count_dropped-IsSafe :
    (ctx : Option ℕ) (n : ℕ) (w w' : World)
    → IsSafe w
    → count_dropped_in ctx n w ≡ some w'
    → IsSafe w'
unfolding count_dropped_in
count_dropped-IsSafe none n w w' safe h = let same : w ≡ w' = cc in subst IsSafe same safe
count_dropped-IsSafe (some i) n w w' safe h = elim (Bool-cases (n == 0)) [
  | inl nothing ↦ let same : w ≡ w' = cc (rw nothing at h) in subst IsSafe same safe
  | inr some_lost ↦
      write-IsSafe i (Writes.count_dropped n) w w' (λ e. count_dropped_call-IsCapped n e) safe
        (rw some_lost at h)
]

Step-IsSafe : {w w' : World} → Step w w' → IsSafe w → IsSafe w'
unfolding start write_in
Step-IsSafe (starts op id t s strict c) safe =
    add-IsSafe _ _ safe (fresh-IsCapped _ op id none strict c) (λ k up. cc)
Step-IsSafe (detaches op id t s strict c ctx h) safe =
    detach-IsSafe op id t s strict c ctx _ _ safe h
Step-IsSafe (writes none what call h) safe = report_then "WLOG_NO_EVENT" what _ _ safe h
Step-IsSafe (writes (some i) what call h) safe =
    write-IsSafe i (run_call call) _ _ (λ e. run_call-IsCapped call e) safe h
Step-IsSafe (levels ctx level h) safe = level-IsSafe ctx level _ _ safe h
Step-IsSafe (counts ctx n h) safe = count_dropped-IsSafe ctx n _ _ safe h
Step-IsSafe (ends l i h) safe = seal-IsSafe l i _ _ safe h

-- From a safe world, every world reached by any sequence of starts, detaches, writes, level settings and
-- ends is safe: each event holds at most 200 top-level keys, one more when the audit key is there and one
-- more when it has ended and has a trace, a counted size of at most 4 MiB and at most ten earlier errors,
-- and each parent is older than its child.
pub Reach-IsSafe : {w w' : World} → IsSafe w → Reach w w' → IsSafe w'
Reach-IsSafe s here = s
Reach-IsSafe s (next r st) = Step-IsSafe st (Reach-IsSafe s r)

abbrev pub empty_world : World
empty_world = record { events = []; problems = [] }

pub empty_world-IsSafe : IsSafe empty_world
empty_world-IsSafe = record { capped = λ i e h. cc; ordered = record { older = λ i e j h up. cc } }
