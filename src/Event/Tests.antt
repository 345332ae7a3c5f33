-- ===== src/Event/Tests.antt =====
-- Runs of the writes on small events, and the theorems of the event at concrete events.
use wlog.Base.{
  ◌++◌, List, ℕ, zero, suc, ◌+◌, ◌-◌, ◌≤◌, ◌≡◌, refl, map, true, false, ◌&&◌, none, some, [], ◌∷◌,
  take, length, arith, str_eq, if◌then◌else◌, get_elem?,
}
use Prim.Native.String.{len}
use wlog.Value.{Fields, end, field, object, array, str, null}
use wlog.Value.Maps.{get, put, size, count, push}
use wlog.Value.Size.{value_size, fields_size}
use wlog.Event.{Event, ErrorInfo, audit_field, max_error_list}
use wlog.Event.Writes.{
  set, set_group, append, field_of, charge_size, has_slot, has_room, reserve_top_level_slot,
  open_group, kv_to_map, merge_map, set_pair, set_pairs, merged, track_unknown_key,
}
use wlog.Event.Accounts.{accepts, field_of-set, audit_records, append-audit, size-set_pair}
use wlog.Event.Errors.{ErrorCall, level_rank, record_errors, panicked, error_level, set_level}
use wlog.Event.Errors.Kept.{
  stamp, record_errors_kept, dropped-record_errors, level-record_errors, earlier, latest,
}
use wlog.Event.World.{World, detach, seal, Ending, fresh_event, write, start}
use wlog.Event.World.Late.{write_late, CountsOne}
use wlog.Event.World.Reach.{
  here, next, starts, detaches, ends, Reach-IsSafe, empty_world, empty_world-IsSafe,
}
use wlog.Event.World.Safe.{IsSafe}

abbrev fresh : Event
fresh = fresh_event (field "trace" null end) "checkout" "e1" none none false

set_then_read : field_of "user" (set "user" (str "ann") fresh) ≡ some (str "ann")
unfolding set reserve_top_level_slot has_slot charge_size has_room get put size value_size
    track_unknown_key field_of
set_then_read = refl

group_merges :
    (set_group "http"
      (field "b" (str "2") end)
      (set_group "http" (field "a" (str "1") end) fresh)).fields
    ≡ field "trace" null (field "http" (object (field "a" (str "1") (field "b" (str "2") end))) end)
unfolding set_group open_group reserve_top_level_slot has_slot set_pairs set_pair charge_size
    has_room get put size value_size merged
group_merges = refl

odd_arguments : kv_to_map (str "a" ∷ null ∷ str "b" ∷ []) ≡ field "a" null end
unfolding kv_to_map put
odd_arguments = refl

field_of-set_example :
    (field_of "user" (set "user" (str "ann") fresh) ≡ (
      if accepts "user" (str "ann") fresh && str_eq "user" "user"
      then some (str "ann")
      else field_of "user" fresh))
    × ((set "user" (str "ann") fresh).dropped
        ≡ (if accepts "user" (str "ann") fresh then fresh.dropped else fresh.dropped + 1))
field_of-set_example = field_of-set "user" "user" (str "ann") fresh

append-audit_example :
    field_of audit_field (append audit_field (str "refund") fresh)
    ≡ some (array (push (audit_records fresh) (str "refund")))
unfolding get field_of count push has_room value_size
append-audit_example = append-audit (str "refund") fresh (omega arith) refl

abbrev old_map : Fields
old_map = field "note" (str "a long text that the group holds already") end

size-set_pair_example :
    ((set_pair "k" (object (field "j" (str "x") end)) (field "k" (object old_map) end) fresh).1.size
      ≡ fresh.size + (len "j" + 8 + len "x") - fields_size old_map)
    × (get "k"
          (set_pair "k" (object (field "j" (str "x") end)) (field "k" (object old_map) end) fresh).0
        ≡ some (object (merge_map old_map (field "j" (str "x") end))))
    × (fields_size (merge_map old_map (field "j" (str "x") end))
        ≡ fields_size old_map + (len "j" + 8 + len "x"))
unfolding get has_room value_size
size-set_pair_example =
    size-set_pair "k" "j" "x" old_map (field "k" (object old_map) end) fresh refl refl refl

abbrev timeout_error : ErrorInfo
timeout_error = record (panicked "net.Error") { code = "TIMEOUT" }

abbrev late_error : ErrorInfo
late_error = record (panicked "net.Error") { code = "LATE" }

-- Two errors from two places, on an event that asks for them.
abbrev asking : Event
asking = record fresh { caller = true }

abbrev twice : List ErrorCall
twice = ("b.go:2", late_error) ∷ []

record_errors_kept_example :
    ((record_errors (("a.go:1", timeout_error) ∷ twice) asking).err_info
      ≡ some (latest (stamp true ("a.go:1", timeout_error)) (map (stamp true) twice)))
    × ((record_errors (("a.go:1", timeout_error) ∷ twice) asking).err_list
        ≡ take 10 (earlier (stamp true ("a.go:1", timeout_error)) (map (stamp true) twice)))
record_errors_kept_example = record_errors_kept ("a.go:1", timeout_error) twice asking refl refl

dropped-record_errors_example :
    (record_errors (("a.go:1", timeout_error) ∷ twice) fresh).dropped
    ≡ fresh.dropped + (length twice - max_error_list)
dropped-record_errors_example =
    dropped-record_errors ("a.go:1", timeout_error) twice fresh refl refl

level-record_errors_example :
    (record_errors (("a.go:1", timeout_error) ∷ []) (set_level "warn" fresh)).level
    ≡ (if (set_level "warn" fresh).level_set then (set_level "warn" fresh).level else error_level)
level-record_errors_example =
    level-record_errors ("a.go:1", timeout_error) [] (set_level "warn" fresh)

abbrev emitted : Event
emitted = record fresh { sealed = true }

abbrev one_emitted : World
one_emitted = record { events = emitted ∷ []; problems = [] }

write_late_example :
    (w' : World) × (write 0 (set "late" null) one_emitted ≡ some w') × CountsOne one_emitted w'
write_late_example =
    write_late 0 (set "late" null) emitted one_emitted
      (record { older = λ i e j h up. none_older i e j h up }) refl refl
  where
    none_older :
        (i : ℕ) (e : Event) (j : ℕ)
        → get_elem? one_emitted.events i ≡ some e
        → e.parent ≡ some j
        → suc j ≤ i
    none_older zero e j h up = cc
    none_older (suc i) e j h up = cc

abbrev started : World
started = start "checkout" "e1" "t1" "s1" none false empty_world

-- An event without a trace, which its end gives one.
abbrev child : Event
child = fresh_event end "mail" "e2" none none false

abbrev one_child : World
one_child = record { events = started.events ++ child ∷ []; problems = [] }

abbrev running : Ending
running = record { is_closed = false; min_level = "info"; trace_id = "t2"; span_id = "s2" }

abbrev ended_child : World
ended_child = record {
  events =
      started.events
      ++ record child {
        sealed = true;
        fields =
            field "trace" (object (field "trace_id" (str "t2") (field "span_id" (str "s2") end)))
              end;
      }
        ∷ [];
  problems = [];
}

detaches_child : detach "mail" "e2" "t2" "s2" none false none started ≡ some one_child
unfolding detach start
detaches_child = refl

ends_child : seal running 1 one_child ≡ some ended_child
unfolding seal start get put level_rank
ends_child = refl

Reach-IsSafe_example : IsSafe ended_child
Reach-IsSafe_example = Reach-IsSafe empty_world-IsSafe (
    next
      (next (next here (starts "checkout" "e1" "t1" "s1" none false))
        (detaches "mail" "e2" "t2" "s2" none false none detaches_child))
      (ends running 1 ends_child))
