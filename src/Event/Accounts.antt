-- ===== src/Event/Accounts.antt =====
-- What a write stores and what it counts: no write is lost without a count, and the audit array
-- always has its slot.
use wlog.Base.{
  ℕ, ◌+◌, ◌-◌, ◌<◌, ◌≡◌, refl, ◌∙◌, ap, String, Bool, true, false, not, ◌&&◌, Option, none, some,
  leb, str_eq, if◌then◌else◌, arith, inl, inr, Option-cases,
}
use Prim.Native.String.{len}
use text.Mathlib.TextPositions.{eq_refl}
use wlog.Value.{Value, Fields, Items, end, field, object, array, str, nil}
use wlog.Value.Maps.{get, put, has, size, count, push, as_array, get-put}
use wlog.Value.Size.{value_size, fields_size, fields_size-put}
use wlog.Event.{Event, audit_field, max_audit_records, max_group_fields}
use wlog.Event.Writes.{
  size_of, array_limit, has_slot, has_room, track_unknown_key, set, field_of, merge_map,
  reserve_top_level_slot, append_to, merged, set_pair, open_array, append,
}
use wlog.Event.Caps.{reserve_cases, charge_cases, charged}

-- Whether `Set` has both a slot and the memory for a value.
abbrev pub accepts : String → Value → Event → Bool
accepts k v e = has_slot k e && has_room (get k e.fields) v e

fields-track :
    (k : String) (e : Event)
    → ((track_unknown_key k e).fields ≡ e.fields) × ((track_unknown_key k e).dropped ≡ e.dropped)
unfolding track_unknown_key
fields-track k e = ground arith

set_stores :
    (k : String) (v : Value) (e : Event)
    → ((set k v e).fields ≡ (if accepts k v e then put k v e.fields else e.fields))
      × ((set k v e).dropped ≡ (if accepts k v e then e.dropped else e.dropped + 1))
unfolding set
set_stores k v e = elim (reserve_cases k e) [
  | inr (full, rejected) ↦ rw (rejected, full) (refl, refl)
  | inl (slot, taken) ↦
      rw (taken, slot)
        (elim (charge_cases (get k e.fields) v e) [
          | inr (over, rejected) ↦ rw (rejected, over) (refl, refl)
          | inl (room, fits) ↦
              rw (fits, room)
                (fields-track k
                  (record (charged (get k e.fields) v e) { fields = put k v e.fields }))
        ])
]

-- After `Set`, `Field` gives the value under its key exactly when there was a slot and room; every
-- other key reads as before, and a rejected write is one more dropped field.
pub field_of-set :
    (k j : String) (v : Value) (e : Event)
    → (field_of j (set k v e) ≡ (if accepts k v e && str_eq k j then some v else field_of j e))
      × ((set k v e).dropped ≡ (if accepts k v e then e.dropped else e.dropped + 1))
unfolding field_of
field_of-set k j v e =
    (ap (get j) (set_stores k v e).0 ∙ get-stored (accepts k v e), (set_stores k v e).1)
  where
    get-stored :
        (b : Bool)
        → get j (if b then put k v e.fields else e.fields)
          ≡ (if b && str_eq k j then some v else get j e.fields)
    get-stored true = get-put k j v e.fields
    get-stored false = refl

le→leb_false : (a b : ℕ) → b < a → leb a b ≡ false
le→leb_false a b h = ground arith

get-put_self : (k : String) (v : Value) (m : Fields) → get k (put k v m) ≡ some v
get-put_self k v m = get-put k k v m ∙ rw (eq_refl k)

abbrev records : Option Items → Items
records none = nil
records (some xs) = xs

-- The records that the audit array holds.
abbrev pub audit_records : Event → Items
audit_records e = records (as_array (field_of audit_field e))

append_fits :
    (key : String) (v : Value) (xs : Items) (e : Event)
    → count xs < array_limit key
    → has_room (get key e.fields) (array (push xs v)) e ≡ true
    → get key (append_to key v (true, xs, e)).fields ≡ some (array (push xs v))
unfolding append_to
append_fits key v xs e short room = elim (charge_cases (get key e.fields) (array (push xs v)) e) [
  | inr (over, _) ↦ cc
  | inl (_, fits) ↦
      rw (le→leb_false (array_limit key) (count xs) short, fits)
        (get-put_self key (array (push xs v)) e.fields)
]

audit_slot : (e : Event) → has_slot audit_field e ≡ true
unfolding has_slot
audit_slot e = ground arith

reserve_audit : (e : Event) → reserve_top_level_slot audit_field e ≡ (true, e)
reserve_audit e = elim (reserve_cases audit_field e) [
  | inl (_, taken) ↦ taken
  | inr (full, _) ↦ cc (audit_slot e)
]

-- However many keys the event holds, an audit record is appended while the array is below its own
-- cap and the event's memory lasts.
pub append-audit :
    (v : Value) (e : Event)
    → count (audit_records e) < max_audit_records
    → has_room (field_of audit_field e) (array (push (audit_records e) v)) e ≡ true
    → field_of audit_field (append audit_field v e) ≡ some (array (push (audit_records e) v))
unfolding field_of append array_limit
append-audit v e short room = elim (Option-cases (as_array (get audit_field e.fields))) [
  | inl missing ↦
      let opened : open_array audit_field e ≡ (true, nil, e) =
        unfold open_array in rw (missing, reserve_audit e) in
      let none_yet : records (as_array (get audit_field e.fields)) ≡ nil = ap records missing in
      rw (opened, none_yet)
        (append_fits audit_field v nil e (rw none_yet at short) (rw none_yet at room))
  | inr (xs, there) ↦
      let opened : open_array audit_field e ≡ (true, xs, e) = unfold open_array in rw there in
      let held : records (as_array (get audit_field e.fields)) ≡ xs = ap records there in
      rw (opened, held) (append_fits audit_field v xs e (rw held at short) (rw held at room))
]

-- `SetGroup` charges a merge as if the new map replaced the old one: the event's size falls by the
-- old map, which the event still holds, and the new key's entry is all that it adds.
pub size-set_pair :
    (k j s : String) (old g : Fields) (e : Event)
    → get k g ≡ some (object old)
    → get j old ≡ none
    → has_room (get k g) (object (field j (str s) end)) e ≡ true
    → ((set_pair k (object (field j (str s) end)) g e).1.size
        ≡ e.size + (len j + 8 + len s) - fields_size old)
      × (get k (set_pair k (object (field j (str s) end)) g e).0
          ≡ some (object (merge_map old (field j (str s) end))))
      × (fields_size (merge_map old (field j (str s) end)) ≡ fields_size old + (len j + 8 + len s))
unfolding set_pair merged merge_map value_size
size-set_pair k j s old g e there new room =
    elim (charge_cases (get k g) (object (field j (str s) end)) e) [
      | inr (over, _) ↦ cc
      | inl (_, fits) ↦
          let open_key : (not (has k g) && leb max_group_fields (size g)) ≡ false = rw there in
          let sizes : size_of (get k g) ≡ fields_size old = rw there in
          rw (open_key, fits, there)
            (omega arith, get-put_self k _ g, fields_size-put j (str s) old new)
    ]
