-- ===== src/Event/Caps.antt =====
-- The caps that bound one event's memory, whatever is written to it.
use wlog.Base.{
  Bool, ℕ, ◌+◌, ◌-◌, ◌≤◌, ◌≡◌, refl, ◌∙◌, String, true, false, not, ◌&&◌, Option, none, some, leb,
  eq_iff, if◌then◌else◌, length, arith, inl, inr, ◌⊎◌, Bool-cases, Option-cases,
}
use wlog.Value.{Value, Fields, Items, end, field, object, array, nil}
use wlog.Value.Maps.{
  get, put, found, has, size, count, push, as_object, as_array, size-put, has-put,
}
use wlog.Value.Size.{value_size}
use wlog.Event.{
  Event, max_keys, audit_field, max_group_fields, max_event_memory, max_error_list, max_log_lines,
}
use wlog.Event.Writes.{
  size_of, array_limit, has_slot, drop_one, reserve_top_level_slot, has_room, charge_size,
  track_unknown_key, set, merged, set_pair, set_pairs, open_group, set_group, update_group,
  open_array, append, append_log,
}

-- Room for every key up to the cap, and always for the audit array.
-- The trace that the end of an event adds needs no room.
abbrev pub traced : Bool → Fields → ℕ
traced is_sealed m = if is_sealed && has "trace" m then 1 else 0

abbrev pub KeysBounded : Bool → Fields → Type 0
KeysBounded is_sealed m =
    size m ≤ max_keys + (if has audit_field m then 1 else 0) + traced is_sealed m

-- An event within its caps, which is a child of `p`.
pub record IsCapped (p : Option ℕ) (e : Event) : Type 0 where
  pub keys_bounded : KeysBounded e.sealed e.fields
  pub memory_bounded : e.size ≤ max_event_memory
  pub errors_bounded : length e.err_list ≤ max_error_list
  pub child_of : e.parent ≡ p

put-KeysBounded :
    (k : String) (v : Value) (e : Event)
    → KeysBounded e.sealed e.fields
    → has_slot k e ≡ true
    → KeysBounded e.sealed (put k v e.fields)
unfolding has_slot
put-KeysBounded k v e h slot =
    rw (size-put k v e.fields, has-put k audit_field v e.fields, has-put k "trace" v e.fields)
      (ground (arith, eq_iff k audit_field))

-- The two ways that a reservation and a charge end.
pub reserve_cases :
    (k : String) (e : Event)
    → ((has_slot k e ≡ true) × (reserve_top_level_slot k e ≡ (true, e)))
      ⊎ ((has_slot k e ≡ false) × (reserve_top_level_slot k e ≡ (false, drop_one e)))
unfolding reserve_top_level_slot
reserve_cases k e = elim (Bool-cases (has_slot k e)) [
  | inl slot ↦ inl (slot, rw slot)
  | inr full ↦ inr (full, rw full)
]

abbrev pub charged : Option Value → Value → Event → Event
charged old next e = record e { size = e.size + value_size next - size_of old }

pub charge_cases :
    (old : Option Value) (next : Value) (e : Event)
    → ((has_room old next e ≡ true) × (charge_size old next e ≡ (true, charged old next e)))
      ⊎ ((has_room old next e ≡ false) × (charge_size old next e ≡ (false, drop_one e)))
unfolding charge_size
charge_cases old next e = elim (Bool-cases (has_room old next e)) [
  | inl room ↦ inl (room, rw room)
  | inr full ↦ inr (full, rw full)
]

drop_one-IsCapped : {p : Option ℕ} (e : Event) → IsCapped p e → IsCapped p (drop_one e)
drop_one-IsCapped e c = ground arith

charged-IsCapped :
    {p : Option ℕ} (old : Option Value) (next : Value) (e : Event)
    → has_room old next e ≡ true
    → IsCapped p e
    → IsCapped p (charged old next e)
unfolding has_room
charged-IsCapped old next e room c = ground arith

store-IsCapped :
    {p : Option ℕ} (k : String) (v : Value) (e : Event)
    → has_slot k e ≡ true
    → IsCapped p e
    → IsCapped p (record e { fields = put k v e.fields })
store-IsCapped k v e slot c = record {
  keys_bounded = put-KeysBounded k v e c.keys_bounded slot;
  memory_bounded = c.memory_bounded;
  errors_bounded = c.errors_bounded;
  child_of = c.child_of;
}

-- A slot depends on the fields alone.
slot-fields : (k : String) (e e' : Event) → e'.fields ≡ e.fields → has_slot k e' ≡ has_slot k e
unfolding has_slot
slot-fields k e e' same = rw same

track-IsCapped :
    {p : Option ℕ} (k : String) (e : Event) → IsCapped p e → IsCapped p (track_unknown_key k e)
unfolding track_unknown_key
track-IsCapped k e c = ground arith

pub set-IsCapped :
    {p : Option ℕ} (k : String) (v : Value) (e : Event) → IsCapped p e → IsCapped p (set k v e)
unfolding set
set-IsCapped k v e c = elim (reserve_cases k e) [
  | inr (_, full) ↦ rw full (drop_one-IsCapped e c)
  | inl (slot, open_slot) ↦ rw open_slot (elim (charge_cases (get k e.fields) v e) [
    | inr (_, over) ↦ rw over (drop_one-IsCapped e c)
    | inl (room, fits) ↦ rw fits (
        track-IsCapped k _ (
          store-IsCapped k v (charged (get k e.fields) v e) (slot-fields k e _ refl ∙ slot)
            (charged-IsCapped (get k e.fields) v e room c)))
  ])
]

-- A pair of a group changes the event's counters only.
pub set_pair_cases :
    (k : String) (v : Value) (g : Fields) (e : Event)
    → (set_pair k v g e ≡ (g, drop_one e))
      ⊎ ((has_room (get k g) v e ≡ true)
          × (set_pair k v g e ≡ (put k (merged (get k g) v) g, charged (get k g) v e)))
unfolding set_pair
set_pair_cases k v g e = elim (Bool-cases (not (has k g) && leb max_group_fields (size g))) [
  | inl full ↦ inl (rw full)
  | inr free ↦ elim (charge_cases (get k g) v e) [
    | inr (_, over) ↦ inl (rw (free, over))
    | inl (room, fits) ↦ inr (room, rw (free, fits))
  ]
]

set_pairs-IsCapped :
    {p : Option ℕ} (pairs g : Fields) (e : Event)
    → IsCapped p e
    → IsCapped p (set_pairs pairs g e).1 × ((set_pairs pairs g e).1.fields ≡ e.fields)
unfolding set_pairs
set_pairs-IsCapped end g e c = (c, refl)
set_pairs-IsCapped (field k v rest) g e c = elim (set_pair_cases k v g e) [
  | inl drops ↦
      rw (drops, set_pairs) (set_pairs-IsCapped rest g (drop_one e) (drop_one-IsCapped e c))
  | inr (room, stores) ↦
      rw (stores, set_pairs)
        (set_pairs-IsCapped rest (put k (merged (get k g) v) g) (charged (get k g) v e)
          (charged-IsCapped (get k g) v e room c))
]

found-object : (o : Option Value) {g : Fields} → as_object o ≡ some g → found o ≡ true
found-object none h = cc
found-object (some v) h = refl

found-array : (o : Option Value) {xs : Items} → as_array o ≡ some xs → found o ≡ true
found-array none h = cc
found-array (some v) h = refl

has_slot_there : (k : String) (e : Event) → has k e.fields ≡ true → has_slot k e ≡ true
unfolding has_slot
has_slot_there k e h = rw h

-- What opening a group gives: the group there, an empty one in a free slot, or a counted rejection.
pub open_group_cases :
    (name : String) (e : Event)
    → ((has_slot name e ≡ true) × ((g : Fields) × (open_group name e ≡ (true, g, e))))
      ⊎ (open_group name e ≡ (false, end, drop_one e))
unfolding open_group
open_group_cases name e = elim (Option-cases (as_object (get name e.fields))) [
  | inr (g, there) ↦
      inl (has_slot_there name e (found-object (get name e.fields) there), (g, rw there))
  | inl missing ↦ elim (reserve_cases name e) [
    | inl (slot, taken) ↦ inl (slot, (end, rw (missing, taken)))
    | inr (_, full) ↦ inr (rw (missing, full))
  ]
]

pub open_array_cases :
    (key : String) (e : Event)
    → ((has_slot key e ≡ true) × ((xs : Items) × (open_array key e ≡ (true, xs, e))))
      ⊎ (open_array key e ≡ (false, nil, drop_one e))
unfolding open_array
open_array_cases key e = elim (Option-cases (as_array (get key e.fields))) [
  | inr (xs, there) ↦
      inl (has_slot_there key e (found-array (get key e.fields) there), (xs, rw there))
  | inl missing ↦ elim (reserve_cases key e) [
    | inl (slot, taken) ↦ inl (slot, (nil, rw (missing, taken)))
    | inr (_, full) ↦ inr (rw (missing, full))
  ]
]

pub set_group-IsCapped :
    {p : Option ℕ} (name : String) (pairs : Fields) (e : Event)
    → IsCapped p e
    → IsCapped p (set_group name pairs e)
unfolding set_group
set_group-IsCapped name end e c = c
set_group-IsCapped name (field k v pairs) e c = elim (open_group_cases name e) [
  | inr full ↦ rw full (drop_one-IsCapped e c)
  | inl (slot, (g, opened)) ↦
      let (c', same) = set_pairs-IsCapped (field k v pairs) g e c in
      rw opened (
        store-IsCapped name _ (set_pairs (field k v pairs) g e).1
          (slot-fields name e (set_pairs (field k v pairs) g e).1 same ∙ slot) c')
]

pub update_group-IsCapped :
    {p : Option ℕ} (name : String) (update : Fields → Fields) (e : Event)
    → IsCapped p e
    → IsCapped p (update_group name update e)
unfolding update_group
update_group-IsCapped name update e c = elim (open_group_cases name e) [
  | inr full ↦ rw full (drop_one-IsCapped e c)
  | inl (slot, (g, opened)) ↦ rw opened (store-IsCapped name (object (update g)) e slot c)
]

pub append-IsCapped :
    {p : Option ℕ} (key : String) (v : Value) (e : Event)
    → IsCapped p e
    → IsCapped p (append key v e)
unfolding append
append-IsCapped key v e c = elim (open_array_cases key e) [
  | inr full ↦ rw full (drop_one-IsCapped e c)
  | inl (slot, (xs, opened)) ↦ rw opened (elim (Bool-cases (leb (array_limit key) (count xs))) [
    | inl long ↦ rw long (drop_one-IsCapped e c)
    | inr short ↦ rw short (elim (charge_cases (get key e.fields) (array (push xs v)) e) [
      | inr (_, over) ↦ rw over (drop_one-IsCapped e c)
      | inl (room, fits) ↦ rw fits (
          store-IsCapped key (array (push xs v)) (charged (get key e.fields) (array (push xs v)) e)
            (slot-fields key e _ refl ∙ slot)
            (charged-IsCapped (get key e.fields) (array (push xs v)) e room c))
    ])
  ])
]

pub append_log-IsCapped :
    {p : Option ℕ} (line : Value) (e : Event) → IsCapped p e → IsCapped p (append_log line e)
unfolding append_log
append_log-IsCapped line e c = elim (open_array_cases "logs" e) [
  | inr full ↦ rw full (drop_one-IsCapped e c)
  | inl (slot, (xs, opened)) ↦ rw opened (elim (Bool-cases (leb max_log_lines (count xs))) [
    | inl long ↦ rw long (ground arith)
    | inr short ↦ rw short (store-IsCapped "logs" (array (push xs line)) e slot c)
  ])
]
