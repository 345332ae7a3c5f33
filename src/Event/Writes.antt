-- ===== src/Event/Writes.antt =====
-- The writes of event.go and logs.go on an open event, each with its caps.
use wlog.Base.{
  ℕ, ◌+◌, ◌-◌, String, Bool, true, false, not, ◌&&◌, Option, none, some, List, [], ◌∷◌, ◌++◌, leb,
  str_eq, if◌then◌else◌, any,
}
use wlog.Value.{Value, Fields, Items, end, field, object, array, str, nil}
use wlog.Value.Maps.{get, put, has, size, count, push, as_object, as_array}
use wlog.Value.Size.{value_size}
use wlog.Event.{
  Event, max_keys, max_audit_records, audit_field, max_group_fields, max_array_len,
  max_event_memory, max_log_lines,
}

-- The size of the value that a map read gives: nil when the key is missing.
abbrev pub size_of : Option Value → ℕ
size_of none = 0
size_of (some v) = value_size v

unfoldable pub array_limit : String → ℕ
array_limit key = if str_eq key audit_field then max_audit_records else max_array_len

unfoldable pub has_slot : String → Event → Bool
has_slot key e =
    if has key e.fields
    then true
    else if str_eq key audit_field
    then true
    else not (leb max_keys (size e.fields))

abbrev pub drop_one : Event → Event
drop_one e = record e { dropped = e.dropped + 1 }

-- A rejected reservation counts the write and returns false.
unfoldable pub reserve_top_level_slot : String → Event → Bool × Event
reserve_top_level_slot key e = if has_slot key e then (true, e) else (false, drop_one e)

-- `e.size+growth > maxEventMemory`, with the old size on the other side, where growth may be
-- negative; the new total stops at 0.
unfoldable pub has_room : Option Value → Value → Event → Bool
has_room old next e = leb (e.size + value_size next) (max_event_memory + size_of old)

unfoldable pub charge_size : Option Value → Value → Event → Bool × Event
charge_size old next e =
    if has_room old next e
    then (true, record e { size = e.size + value_size next - size_of old })
    else (false, drop_one e)

abbrev known_key : String → Event → Bool
known_key key e = elim e.strict_keys [ none ↦ true | some ks ↦ any (λ k. str_eq k key) ks ]

unfoldable pub track_unknown_key : String → Event → Event
track_unknown_key key e =
    if known_key key e
    then e
    else if any (λ k. str_eq k key) e.unknown_keys
    then e
    else record e { unknown_keys = e.unknown_keys ++ key ∷ [] }

-- `Set`
store_charged : String → Value → Bool × Event → Event
store_charged key v (false, e) = e
store_charged key v (true, e) = track_unknown_key key (record e { fields = put key v e.fields })

unfoldable pub charge_and_store : String → Value → Bool × Event → Event
unfolding store_charged
charge_and_store key v (false, e) = e
charge_and_store key v (true, e) = store_charged key v (charge_size (get key e.fields) v e)

unfoldable pub set : String → Value → Event → Event
unfolding charge_and_store
set key v e = charge_and_store key v (reserve_top_level_slot key e)

-- `Field`
unfoldable pub field_of : String → Event → Option Value
field_of key e = get key e.fields

-- `mergeMap`: two objects under one key merge, any other value replaces.
unfoldable pub merge_map : Fields → Fields → Fields
merge_map dst end = dst
merge_map dst (field k (object incoming) src) =
    merge_map
      (put k
        (object (elim (as_object (get k dst)) [
          | none ↦ incoming
          | some existing ↦ merge_map existing incoming
        ]))
        dst)
      src
merge_map dst (field k v src) = merge_map (put k v dst) src

-- What one pair leaves under its key.
unfoldable pub merged : Option Value → Value → Value
merged (some (object existing)) (object incoming) = object (merge_map existing incoming)
merged _ v = v

-- One round of the loop of `SetGroup`, over the group and the event's counters.
put_charged : String → Value → Fields → Bool × Event → Fields × Event
put_charged k v g (false, e) = (g, e)
put_charged k v g (true, e) = (put k (merged (get k g) v) g, e)

unfoldable pub set_pair : String → Value → Fields → Event → Fields × Event
unfolding put_charged
set_pair k v g e =
    if not (has k g) && leb max_group_fields (size g)
    then (g, drop_one e)
    else put_charged k v g (charge_size (get k g) v e)

unfoldable pub set_pairs : Fields → Fields → Event → Fields × Event
set_pairs end g e = (g, e)
set_pairs (field k v rest) g e = let (g', e') = set_pair k v g e in set_pairs rest g' e'

-- The group that a write works on: the one there, or a new one if there is a slot.
group_or_slot : Option Fields → String → Event → Bool × Fields × Event
group_or_slot (some g) name e = (true, g, e)
group_or_slot none name e = let (ok, e') = reserve_top_level_slot name e in (ok, end, e')

unfoldable pub open_group : String → Event → Bool × Fields × Event
unfolding group_or_slot
open_group name e = group_or_slot (as_object (get name e.fields)) name e

abbrev store_group : String → Fields × Event → Event
store_group name (g, e) = record e { fields = put name (object g) e.fields }

fill_group : String → Fields → Bool × Fields × Event → Event
fill_group name pairs (false, g, e) = e
fill_group name pairs (true, g, e) = store_group name (set_pairs pairs g e)

-- `SetGroup`, on the pairs in the order in which the range over the copied map gives them. No pairs
-- leave the event as it is.
unfoldable pub set_group : String → Fields → Event → Event
unfolding fill_group
set_group name end e = e
set_group name (field k v pairs) e = fill_group name (field k v pairs) (open_group name e)

apply_update : String → (Fields → Fields) → Bool × Fields × Event → Event
apply_update name update (false, g, e) = e
apply_update name update (true, g, e) = store_group name (update g, e)

-- `UpdateGroup`
unfoldable pub update_group : String → (Fields → Fields) → Event → Event
unfolding apply_update
update_group name update e = apply_update name update (open_group name e)

-- The array that a write works on, empty where the key holds none, and whether it has its slot.
array_or_slot : Option Items → String → Event → Bool × Items × Event
array_or_slot (some xs) key e = (true, xs, e)
array_or_slot none key e = let (ok, e') = reserve_top_level_slot key e in (ok, nil, e')

unfoldable pub open_array : String → Event → Bool × Items × Event
unfolding array_or_slot
open_array key e = array_or_slot (as_array (get key e.fields)) key e

store_grown : String → Value → Bool × Event → Event
store_grown key grown (false, e) = e
store_grown key grown (true, e) = record e { fields = put key grown e.fields }

unfoldable pub append_to : String → Value → Bool × Items × Event → Event
unfolding store_grown
append_to key v (false, xs, e) = e
append_to key v (true, xs, e) =
    if leb (array_limit key) (count xs)
    then drop_one e
    else store_grown key (array (push xs v)) (charge_size (get key e.fields) (array (push xs v)) e)

-- `Append`
unfoldable pub append : String → Value → Event → Event
unfolding append_to
append key v e = append_to key v (open_array key e)

append_line : Value → Bool × Items × Event → Event
append_line line (false, xs, e) = e
append_line line (true, xs, e) =
    if leb max_log_lines (count xs)
    then record e { dropped_logs = e.dropped_logs + 1 }
    else record e { fields = put "logs" (array (push xs line)) e.fields }

-- `AppendLog`, of the copied line.
unfoldable pub append_log : Value → Event → Event
unfolding append_line
append_log line e = append_line line (open_array "logs" e)

-- `CountDropped`, past its guard `n <= 0`.
unfoldable pub count_dropped : ℕ → Event → Event
count_dropped n e = record e { dropped = e.dropped + n }

-- `kvToMap`: one object, or key, value pairs; an odd last argument and a key that is no string go.
pairs_to_map : List Value → Fields → Fields
pairs_to_map [] m = m
pairs_to_map (k ∷ []) m = m
pairs_to_map (str k ∷ v ∷ rest) m = pairs_to_map rest (put k v m)
pairs_to_map (k ∷ v ∷ rest) m = pairs_to_map rest m

unfoldable pub kv_to_map : List Value → Fields
unfolding pairs_to_map
kv_to_map (object m ∷ []) = m
kv_to_map kv = pairs_to_map kv end
