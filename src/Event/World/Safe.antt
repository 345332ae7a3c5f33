-- ===== src/Event/World/Safe.antt =====
-- A world is safe when its events are within their caps and parents are older than their children.
pub mod Ends
use mathlib.Core.Option
use wlog.Base.{
  ℕ, zero, suc, ◌+◌, ◌<◌, ◌≡◌, refl, sym, ◌∙◌, ap, subst, String, Bool, true, false, str_eq, Option,
  none, some, List, [], ◌∷◌, ◌++◌, arith, length, get_elem?, get_elem?-append_one, get_elem?-set,
  set, if◌then◌else◌, inl, inr, Bool-cases, within_get_elem?, Option-cases,
}
use wlog.Value.{Value, Fields, str, end, field, object}
use wlog.Value.Maps.{get, size, has, found, size-put, has-put}
use wlog.Event.{Event, audit_field}
use wlog.Event.Caps.{IsCapped, KeysBounded}
use wlog.Event.World.{
  World, report, record_late_write, write, fresh_event, detach, seal, late_known, write_known,
  seal_known, detached, child_trace, with_trace, fill, name_trace, filtered, ended, Ending,
}
use wlog.Event.World.Late.{IsOrdered, bumped, late_at_sealed, late_at_open}

-- Each event of the world is within its caps, and its parent is older.
pub record IsSafe (w : World) : Type 0 where
  pub capped : (i : ℕ) (e : Event) → get_elem? w.events i ≡ some e → IsCapped e.parent e
  pub ordered : IsOrdered w

pub IsCapped-eq : {p : Option ℕ} {x e : Event} → x ≡ e → IsCapped p e → IsCapped x.parent x
IsCapped-eq {p} {x} {e} new c =
    subst (λ (y : Event). IsCapped y.parent y) (sym new)
      (subst (λ (q : Option ℕ). IsCapped q e) (sym c.child_of) c)

-- One event replaced by a capped one of the same parent.
pub replace-IsSafe :
    (i : ℕ) (e e' : Event) (w : World)
    → IsSafe w
    → get_elem? w.events i ≡ some e
    → IsCapped e.parent e'
    → IsSafe (record w { events = set w.events i e' })
replace-IsSafe i e e' w s there c = record {
  capped = λ j x h. elim (get_elem?-set w.events i j e' h) [
    | inl (same, new) ↦ IsCapped-eq new c
    | inr old ↦ s.capped j x old
  ];
  ordered = record {
    older = λ j x k h up. elim (get_elem?-set w.events i j e' h) [
      | inl (same, new) ↦
          subst (λ (n : ℕ). k < n) same
            (s.ordered.older i e k there
              (sym c.child_of ∙ sym (ap (λ (y : Event). y.parent) new) ∙ up))
      | inr old ↦ s.ordered.older j x k old up
    ];
  };
}

pub add-IsSafe :
    (e : Event) (w : World)
    → IsSafe w
    → IsCapped e.parent e
    → ((k : ℕ) → e.parent ≡ some k → k < length w.events)
    → IsSafe (record w { events = w.events ++ e ∷ [] })
add-IsSafe e w s c within = record {
  capped = λ j x h. elim (get_elem?-append_one w.events e j h) [
    | inl old ↦ s.capped j x old
    | inr (same, new) ↦ IsCapped-eq new c
  ];
  ordered = record {
    older = λ j x k h up. elim (get_elem?-append_one w.events e j h) [
      | inl old ↦ s.ordered.older j x k old up
      | inr (same, new) ↦
          subst (λ (n : ℕ). k < n) (sym same)
            (within k (sym (ap (λ (y : Event). y.parent) new) ∙ up))
    ];
  };
}

late_count :
    {p : Option ℕ} {e : Event}
    → IsCapped p e
    → IsCapped p (record e { late_writes = e.late_writes + 1 })
late_count c = ground arith

abbrev written : ℕ → (Event → Event) → Event → World → Option World
written i f e w = some (record w { events = set w.events i (f e) })

pub report-IsSafe : (code source : String) (w : World) → IsSafe w → IsSafe (report code source w)
unfolding report
report-IsSafe code source w s = record {
  capped = s.capped;
  ordered = record { older = s.ordered.older };
}

pub late-IsSafe :
    (fuel : ℕ) (p : Option ℕ) (w w' : World)
    → IsSafe w
    → record_late_write fuel p w ≡ some w'
    → IsSafe w'
unfolding record_late_write
late-IsSafe fuel none w w' s h =
    let same : report "WLOG_LATE_WRITE" "write" w ≡ w' = cc in
    subst IsSafe same (report-IsSafe "WLOG_LATE_WRITE" "write" w s)
late-IsSafe zero (some i) w w' s h = cc
late-IsSafe (suc fuel) (some i) w w' s h = elim (Option-cases (get_elem? w.events i)) [
  | inl missing ↦ cc (ap (λ (o : Option Event). late_known (record_late_write fuel) i o w) missing)
  | inr (e, there) ↦
      let step =
        sym (ap (λ (o : Option Event). late_known (record_late_write fuel) i o w) there) ∙ h in
      elim (Bool-cases e.sealed) [
        | inl sealed ↦ late-IsSafe fuel e.parent w w' s (sym (late_at_sealed _ i e w sealed) ∙ step)
        | inr is_open ↦
            let same : bumped i e w ≡ w' =
              cc (late_at_open (record_late_write fuel) i e w is_open, step) in
            subst IsSafe same (
              replace-IsSafe i e (record e { late_writes = e.late_writes + 1 }) w s there
                (late_count (s.capped i e there)))
      ]
]

-- A write keeps a world safe when what it does to an open event keeps the event within its caps.
pub write-IsSafe :
    (i : ℕ) (f : Event → Event) (w w' : World)
    → ((e : Event) → IsCapped e.parent e → IsCapped e.parent (f e))
    → IsSafe w
    → write i f w ≡ some w'
    → IsSafe w'
unfolding write
write-IsSafe i f w w' keeps s h = elim (Option-cases (get_elem? w.events i)) [
  | inl missing ↦ cc (ap (λ (o : Option Event). write_known i f o w) missing)
  | inr (e, there) ↦
      let step = sym (ap (λ (o : Option Event). write_known i f o w) there) ∙ h in
      elim (Bool-cases e.sealed) [
        | inl sealed ↦ late-IsSafe (length w.events) e.parent w w' s (
            sym (
              ap
                (λ (b : Bool).
                  if b then record_late_write (length w.events) e.parent w else written i f e w)
                sealed)
            ∙ step)
        | inr is_open ↦
            let done =
              sym (
                ap
                  (λ (b : Bool).
                    if b then record_late_write (length w.events) e.parent w else written i f e w)
                  is_open)
              ∙ step in
            let same : record w { events = set w.events i (f e) } ≡ w' = cc in
            subst IsSafe same (replace-IsSafe i e (f e) w s there (keeps e (s.capped i e there)))
      ]
]

pub fresh-IsCapped :
    (trace : Value) (op id : String) (p : Option ℕ) (strict : Option (List String)) (c : Bool)
    → IsCapped p (fresh_event (field "trace" trace end) op id p strict c)
unfolding size get
fresh-IsCapped trace op id p strict c = record {
  keys_bounded = omega arith;
  memory_bounded = omega arith;
  errors_bounded = omega arith;
  child_of = refl;
}

pub bare-IsCapped :
    (op id : String) (p : Option ℕ) (strict : Option (List String)) (c : Bool)
    → IsCapped p (fresh_event end op id p strict c)
unfolding size get
bare-IsCapped op id p strict c = record {
  keys_bounded = omega arith;
  memory_bounded = omega arith;
  errors_bounded = omega arith;
  child_of = refl;
}

abbrev added : World → Option Event → Option World
added w o = Option.map (λ child. record w { events = w.events ++ child ∷ [] }) o

pub within_parent :
    (i k : ℕ) (w : World) (e : Event)
    → get_elem? w.events i ≡ some e
    → some i ≡ some k
    → k < length w.events
within_parent i k w e there up =
    let same : i ≡ k = cc in
    subst (λ (n : ℕ). n < length w.events) same (within_get_elem? w.events i there)

pub detach-IsSafe :
    (op id t s : String) (strict : Option (List String)) (c : Bool) (ctx : Option ℕ) (w w' : World)
    → IsSafe w
    → detach op id t s strict c ctx w ≡ some w'
    → IsSafe w'
unfolding detach
detach-IsSafe op id t s strict c none w w' safe h =
    let child = fresh_event end op id none strict c in
    let same : record w { events = w.events ++ child ∷ [] } ≡ w' = cc in
    subst IsSafe same (add-IsSafe child w safe (bare-IsCapped op id none strict c) (λ k up. cc))
detach-IsSafe op id t s strict c (some i) w w' safe h = elim (Option-cases (get_elem? w.events i)) [
  | inl missing ↦ cc (ap (λ (o : Option Event). added w (detached op id t s strict c i o)) missing)
  | inr (e, there) ↦
      let trace = object (child_trace t s e) in
      let child = fresh_event (field "trace" trace end) op id (some i) strict c in
      let step =
        sym (ap (λ (o : Option Event). added w (detached op id t s strict c i o)) there) ∙ h in
      let same : record w { events = w.events ++ child ∷ [] } ≡ w' = cc in
      subst IsSafe same (
        add-IsSafe child w safe (fresh-IsCapped trace op id (some i) strict c)
          (λ k up. within_parent i k w e there up))
]
