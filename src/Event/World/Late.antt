-- ===== src/Event/World/Late.antt =====
-- Late writes: a write on an emitted event changes no emitted event, and is counted exactly once,
-- on the nearest ancestor that is still open or as a reported problem.
use wlog.Base.{
  ℕ, zero, suc, ◌+◌, ◌<◌, ◌≡◌, refl, ◌∙◌, ap, Bool, true, false, Option, none, some, List, [], ◌∷◌,
  arith, length, get_elem?, set, if◌then◌else◌, Bool-cases, inl, inr, length-append,
  get_elem?-set_ne, get_elem?_within, within_get_elem?,
}
use wlog.Event.{Event}
use wlog.Event.World.{World, report, late_at, record_late_write, write}

-- A parent is older than its child.
pub record IsOrdered (w : World) : Type 0 where
  pub older :
      (i : ℕ) (e : Event) (j : ℕ) → get_elem? w.events i ≡ some e → e.parent ≡ some j → j < i

abbrev pub total_late : List Event → ℕ
total_late [] = 0
total_late (e ∷ es) = e.late_writes + total_late es

abbrev late_of : Option Event → ℕ
late_of none = 0
late_of (some e) = e.late_writes

-- An open event and an emitted one stand at different places.
apart_if_sealed :
    (o : Option Event) (e x : Event)
    → o ≡ some e
    → o ≡ some x
    → e.sealed ≡ false
    → x.sealed ≡ true
    → ⊥
apart_if_sealed none e x p q is_open sealed = cc
apart_if_sealed (some y) e x p q is_open sealed = cc

total_late-set :
    (es : List Event) (i : ℕ) (e e' : Event)
    → get_elem? es i ≡ some e
    → e'.late_writes ≡ e.late_writes + 1
    → total_late (set es i e') ≡ total_late es + 1
total_late-set [] i e e' h late = cc
total_late-set (x ∷ es) zero e e' h late = omega (arith, ap late_of h)
total_late-set (x ∷ es) (suc i) e e' h late = omega (arith, total_late-set es i e e' h late)

-- What counting one late write does: one more count in all, and emitted events as they were.
pub record CountsOne (w w' : World) : Type 0 where
  pub counted :
      total_late w'.events + length w'.problems ≡ total_late w.events + length w.problems + 1
  pub untouched :
      (j : ℕ) (e : Event)
      → get_elem? w.events j ≡ some e
      → e.sealed ≡ true
      → get_elem? w'.events j ≡ some e

abbrev pub bumped : ℕ → Event → World → World
bumped i e w = record w { events = set w.events i (record e { late_writes = e.late_writes + 1 }) }

bumped-CountsOne :
    (i : ℕ) (e : Event) (w : World)
    → get_elem? w.events i ≡ some e
    → e.sealed ≡ false
    → CountsOne w (bumped i e w)
bumped-CountsOne i e w h is_open = record {
  counted = omega (arith, total_late-set w.events i e _ h refl);
  untouched = λ j x there sealed.
      get_elem?-set_ne w.events i j _ (λ same.
        apart_if_sealed (get_elem? w.events i) e x h (ap (get_elem? w.events) same ∙ there) is_open
          sealed)
      ∙ there;
}

report-CountsOne : (w : World) → CountsOne w (report "WLOG_LATE_WRITE" "write" w)
unfolding report
report-CountsOne w = record {
  counted = omega (arith, length-append w.problems (("WLOG_LATE_WRITE", "write") ∷ []));
  untouched = λ j e there sealed. there;
}

abbrev Outcome : World → Option World → Type 0
Outcome w r = (w' : World) × (r ≡ some w') × CountsOne w w'

module _ (next : Option ℕ → World → Option World) (i : ℕ) (e : Event) (w : World) where
  pub late_at_sealed : e.sealed ≡ true → late_at next i e w ≡ next e.parent w
  unfolding late_at
  late_at_sealed h = ap (λ (b : Bool). if b then next e.parent w else some (bumped i e w)) h

  pub late_at_open : e.sealed ≡ false → late_at next i e w ≡ some (bumped i e w)
  unfolding late_at
  late_at_open h = ap (λ (b : Bool). if b then next e.parent w else some (bumped i e w)) h

late_total :
    (fuel : ℕ) (p : Option ℕ) (w : World)
    → IsOrdered w
    → ((i : ℕ) → p ≡ some i → (i < fuel) × (i < length w.events))
    → Outcome w (record_late_write fuel p w)
unfolding record_late_write
late_total fuel none w o h = (report "WLOG_LATE_WRITE" "write" w, refl, report-CountsOne w)
late_total zero (some i) w o h = absurd (omega (arith, (h i refl).0))
late_total (suc fuel) (some i) w o h =
    let (e, there) = get_elem?_within w.events i (h i refl).1 in
    elim (Bool-cases e.sealed) [
      | inl sealed ↦
          rw (there, late_at_sealed _ i e w sealed)
            (late_total fuel e.parent w o (λ j up.
              let older = o.older i e j there up in
              let within = h i refl in (omega arith, omega arith)))
      | inr is_open ↦
          rw (there, late_at_open _ i e w is_open)
            (bumped i e w, refl, bumped-CountsOne i e w there is_open)
    ]

-- A write on an emitted event always ends, changes no emitted event, this one included, and counts
-- exactly once: as a late write of one event, or as one reported problem.
pub write_late :
    (i : ℕ) (f : Event → Event) (e : Event) (w : World)
    → IsOrdered w
    → get_elem? w.events i ≡ some e
    → e.sealed ≡ true
    → Outcome w (write i f w)
unfolding write
write_late i f e w o there sealed =
    rw (there, sealed)
      (late_total (length w.events) e.parent w o (λ j up.
        let older = o.older i e j there up in
        let within = within_get_elem? w.events i there in (omega arith, omega arith)))
