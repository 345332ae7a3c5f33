-- ===== src/Event/World/Safe/Ends.antt =====
-- The end of an event in event.go keeps a world safe.

use wlog.Base.{
  ℕ, ◌≡◌, refl, sym, ◌∙◌, ap, subst, String, Bool, true, false, str_eq, Option, none, some, arith,
  get_elem?, set, if◌then◌else◌, inl, inr, Bool-cases, Option-cases,
}
use wlog.Value.{Value, Fields, str, end, field, object}
use wlog.Value.Maps.{get, has, found, size-put, has-put}
use wlog.Event.{Event, audit_field}
use wlog.Event.Caps.{IsCapped, KeysBounded}
use wlog.Event.World.{
  World, report, seal, seal_known, with_trace, fill, name_trace, filtered, ended, Ending,
}
use wlog.Event.World.Safe.{IsSafe, replace-IsSafe, report-IsSafe}

-- The trace that an event ends with takes one key at most, and none where one is there.
with_trace-KeysBounded :
    (s : Bool) (t sp : String) (m : Fields) (o : Option Value)
    → get "trace" m ≡ o
    → KeysBounded s m
    → KeysBounded true (with_trace t sp o m)
unfolding with_trace
with_trace-KeysBounded s t sp m none there h =
    let v : Value = object (field "trace_id" (str t) (field "span_id" (str sp) end)) in
    let no_trace : has "trace" m ≡ false = ap found there in
    rw (size-put "trace" v m, has-put "trace" audit_field v m, has-put "trace" "trace" v m)
      (ground (arith, no_trace, h))
with_trace-KeysBounded s t sp m (some (object u)) there h =
    let v : Value = object (fill "span_id" sp (fill "trace_id" t u)) in
    let a_trace : has "trace" m ≡ true = ap found there in
    rw (size-put "trace" v m, has-put "trace" audit_field v m, has-put "trace" "trace" v m)
      (ground (arith, a_trace, h))
with_trace-KeysBounded s t sp m (some _) there h = ground (arith, h)

named-IsCapped :
    {p : Option ℕ} (t sp : String) (e : Event)
    → IsCapped p e
    → IsCapped p (name_trace t sp (record e { sealed = true }))
unfolding name_trace
named-IsCapped {p} t sp e c =
    elim (str_eq e.kind "log")
      as (λ b. IsCapped p (
        if b then record e { sealed = true } else record e {
          sealed = true;
          fields = with_trace t sp (get "trace" e.fields) e.fields;
        })) [
          | true ↦ ground arith
          | false ↦ record {
            keys_bounded =
                with_trace-KeysBounded e.sealed t sp e.fields (get "trace" e.fields) refl
                  c.keys_bounded;
            memory_bounded = c.memory_bounded;
            errors_bounded = c.errors_bounded;
            child_of = c.child_of;
          }
        ]

ended-IsCapped : {p : Option ℕ} (l : Ending) (e : Event) → IsCapped p e → IsCapped p (ended l e)
unfolding ended
ended-IsCapped {p} l e c =
    elim (filtered l e)
      as (λ b. IsCapped p (
        if b
        then record e { sealed = true }
        else name_trace l.trace_id l.span_id (record e { sealed = true }))) [
          | true ↦ ground arith
          | false ↦ named-IsCapped l.trace_id l.span_id e c
        ]

pub seal-IsSafe : (l : Ending) (i : ℕ) (w w' : World) → IsSafe w → seal l i w ≡ some w' → IsSafe w'
unfolding seal
seal-IsSafe l i w w' s h = elim (Option-cases (get_elem? w.events i)) [
  | inl missing ↦ cc (ap (λ (o : Option Event). seal_known l i o w) missing)
  | inr (e, there) ↦
      let step = sym (ap (λ (o : Option Event). seal_known l i o w) there) ∙ h in
      elim (Bool-cases l.is_closed) [
        | inl closed ↦
            let same : report "WLOG_LOGGER_CLOSED" "emit" w ≡ w' = cc (rw closed at step) in
            subst IsSafe same (report-IsSafe "WLOG_LOGGER_CLOSED" "emit" w s)
        | inr running ↦
            let same : record w { events = set w.events i (ended l e) } ≡ w' =
              cc (rw running at step) in
            subst IsSafe same
              (replace-IsSafe i e (ended l e) w s there (ended-IsCapped l e (s.capped i e there)))
      ]
]
