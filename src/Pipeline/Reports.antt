-- ===== src/Pipeline/Reports.antt =====
-- reportDropProblem of pipeline/pipeline.go: a drop is reported through the Logger, at most once per
-- reason and minute. The map of entries is a function of the reason, and the Problems are a list of
-- the reason and the count that each message carries.
use wlog.Base.{
  ℕ, ◌+◌, ◌-◌, ◌≡◌, refl, ap, sym, ◌∙◌, ◌*◌, Bool, true, false, not, ◌||◌, Option, none, some, List,
  [], ◌∷◌, ◌++◌, String, arith, str_eq, eq_iff, if◌then◌else◌, ltb, ◌==◌, Bool-cases, inl, inr,
}
use wlog.Pipeline.{Cause, full, closed, unsent, PartialError}
use wlog.Pipeline.Options.{second}

abbrev pub minute : ℕ
minute = 60 * second

pub record DropReport : Type 0 where
  pub time : ℕ
  pub count : ℕ

-- `has_logger` says whether the pipeline has a Logger to report to.
pub record Reporter : Type 0 where
  pub has_logger : Bool
  pub entries : String → Option DropReport
  pub problems : List (String × ℕ)

-- A PartialError that is not nil and names a reason gives that one.
partial_reason : Option (Option PartialError) → String
partial_reason none = "send_failed"
partial_reason (some none) = "send_failed"
partial_reason (some (some pe)) = if str_eq pe.reason "" then "send_failed" else pe.reason

pub drop_reason : Cause → String
unfolding partial_reason
drop_reason full = "buffer_full"
drop_reason closed = "closed"
drop_reason (unsent none) = "buffer_full"
drop_reason (unsent (some err)) = partial_reason err.as_partial

unfoldable pub store : String → DropReport → Reporter → String → Option DropReport
store reason entry r k = if str_eq reason k then some entry else r.entries k

unfoldable pub count_of : Option DropReport → ℕ
count_of none = 0
count_of (some entry) = entry.count

hold : ℕ → String → DropReport → Reporter → Reporter
hold n reason entry r = record r {
  entries = store reason (record { time = entry.time; count = entry.count + n }) r;
}

raise : ℕ → String → ℕ → ℕ → Reporter → Reporter
raise n reason now held r = record r {
  entries = store reason (record { time = now; count = 0 }) r;
  problems = r.problems ++ (reason, held + n) ∷ [];
}

with_entry : ℕ → String → ℕ → Option DropReport → Reporter → Reporter
with_entry n reason now none r = raise n reason now 0 r
with_entry n reason now (some entry) r =
    if ltb (now - entry.time) minute
    then hold n reason entry r
    else raise n reason now entry.count r

pub report_drop_problem : ℕ → String → ℕ → Reporter → Reporter
report_drop_problem n reason now r =
    if not r.has_logger || n == 0 then r else with_entry n reason now (r.entries reason) r

-- A drop that is reported: how many events, the reason, and when.
pub record Drop : Type 0 where
  pub events : ℕ
  pub reason : String
  pub now : ℕ

pub report_all : List Drop → Reporter → Reporter
report_all [] r = r
report_all (d ∷ ds) r = report_all ds (report_drop_problem d.events d.reason d.now r)

abbrev pub no_reports : Reporter
no_reports = record { has_logger = true; entries = λ k. none; problems = [] }

-- The events of a reason that the Problems name, and that the drops had.
unfoldable pub named : String → List (String × ℕ) → ℕ
named k [] = 0
named k ((reason, n) ∷ ps) = (if str_eq reason k then n else 0) + named k ps

unfoldable pub lost : String → List Drop → ℕ
lost k [] = 0
lost k (d ∷ ds) = (if str_eq d.reason k then d.events else 0) + lost k ds

-- What is accounted for under a reason: named by a Problem, or held for the next one.
unfoldable pub accounted : String → Reporter → ℕ
accounted k r = named k r.problems + count_of (r.entries k)

named-append :
    (k : String) (ps : List (String × ℕ)) (reason : String) (n : ℕ)
    → named k (ps ++ (reason, n) ∷ []) ≡ named k ps + (if str_eq reason k then n else 0)
unfolding named
named-append k [] reason n = omega arith
named-append k ((q, m) ∷ ps) reason n = omega (arith, named-append k ps reason n)

-- The entry of the same reason.
same_entry :
    (reason k : String) (r : Reporter) (o : Option DropReport)
    → str_eq reason k ≡ true
    → r.entries reason ≡ o
    → r.entries k ≡ o
same_entry reason k r o same there =
    let (to, _) = eq_iff reason k in sym (ap r.entries (to same)) ∙ there

-- What is stored under another reason does not count.
count_of-store :
    (reason k : String) (entry : DropReport) (r : Reporter)
    → count_of (store reason entry r k)
      ≡ (if str_eq reason k then entry.count else count_of (r.entries k))
unfolding store count_of
count_of-store reason k entry r = elim (Bool-cases (str_eq reason k)) [
  | inl same ↦ rw same refl
  | inr apart ↦ rw apart refl
]

raise-accounted :
    (n : ℕ) (reason : String) (now : ℕ) (r : Reporter) (k : String) (o : Option DropReport)
    → r.entries reason ≡ o
    → accounted k (raise n reason now (count_of o) r)
      ≡ accounted k r + (if str_eq reason k then n else 0)
unfolding accounted raise
raise-accounted n reason now r k o there = elim (Bool-cases (str_eq reason k)) [
  | inl same ↦ ground (
    arith,
    same,
    named-append k r.problems reason (count_of o + n),
    count_of-store reason k (record { time = now; count = 0 }) r,
    ap count_of (same_entry reason k r o same there),
  )
  | inr apart ↦ ground (
    arith,
    apart,
    named-append k r.problems reason (count_of o + n),
    count_of-store reason k (record { time = now; count = 0 }) r,
  )
]

hold-accounted :
    (n : ℕ) (reason : String) (r : Reporter) (k : String) (entry : DropReport)
    → r.entries reason ≡ some entry
    → accounted k (hold n reason entry r) ≡ accounted k r + (if str_eq reason k then n else 0)
unfolding accounted hold count_of
hold-accounted n reason r k entry there = elim (Bool-cases (str_eq reason k)) [
  | inl same ↦ ground (
    arith,
    same,
    count_of-store reason k (record { time = entry.time; count = entry.count + n }) r,
    ap count_of (same_entry reason k r (some entry) same there),
  )
  | inr apart ↦ ground (
    arith,
    apart,
    count_of-store reason k (record { time = entry.time; count = entry.count + n }) r,
  )
]

with_entry-accounted :
    (n : ℕ) (reason : String) (now : ℕ) (o : Option DropReport) (r : Reporter) (k : String)
    → r.entries reason ≡ o
    → accounted k (with_entry n reason now o r) ≡ accounted k r + (if str_eq reason k then n else 0)
unfolding with_entry count_of
with_entry-accounted n reason now none r k there = raise-accounted n reason now r k none there
with_entry-accounted n reason now (some entry) r k there =
    elim (Bool-cases (ltb (now - entry.time) minute)) [
      | inl soon ↦ rw soon (hold-accounted n reason r k entry there)
      | inr late ↦ rw late (raise-accounted n reason now r k (some entry) there)
    ]

with_entry-has_logger :
    (n : ℕ) (reason : String) (now : ℕ) (o : Option DropReport) (r : Reporter)
    → (with_entry n reason now o r).has_logger ≡ r.has_logger
unfolding with_entry raise hold
with_entry-has_logger n reason now none r = refl
with_entry-has_logger n reason now (some entry) r =
    elim (ltb (now - entry.time) minute)
      as (λ b.
        (if b then hold n reason entry r else raise n reason now entry.count r).has_logger
        ≡ r.has_logger) [ true ↦ refl | false ↦ refl ]

report-accounted :
    (d : Drop) (r : Reporter) (k : String)
    → r.has_logger ≡ true
    → accounted k (report_drop_problem d.events d.reason d.now r)
      ≡ accounted k r + (if str_eq d.reason k then d.events else 0)
unfolding report_drop_problem
report-accounted d r k set =
    ap
      (λ (b : Bool). accounted k (
        if not b || d.events == 0
        then r
        else with_entry d.events d.reason d.now (r.entries d.reason) r))
      set
    ∙ elim (Bool-cases (d.events == 0)) [
      | inl none_lost ↦ rw none_lost (ground (arith, none_lost))
      | inr some_lost ↦
          rw some_lost (with_entry-accounted d.events d.reason d.now (r.entries d.reason) r k refl)
    ]

report-has_logger :
    (d : Drop) (r : Reporter)
    → (report_drop_problem d.events d.reason d.now r).has_logger ≡ r.has_logger
unfolding report_drop_problem
report-has_logger d r =
    elim (not r.has_logger || d.events == 0)
      as (λ b.
        (if b then r else with_entry d.events d.reason d.now (r.entries d.reason) r).has_logger
        ≡ r.has_logger) [
          | true ↦ refl
          | false ↦ with_entry-has_logger d.events d.reason d.now (r.entries d.reason) r
        ]

report_all-accounted :
    (ds : List Drop) (r : Reporter) (k : String)
    → r.has_logger ≡ true
    → accounted k (report_all ds r) ≡ accounted k r + lost k ds
unfolding report_all lost
report_all-accounted [] r k set = omega arith
report_all-accounted (d ∷ ds) r k set = omega (
  arith,
  report_all-accounted ds (report_drop_problem d.events d.reason d.now r) k
      (report-has_logger d r ∙ set),
  report-accounted d r k set,
)

-- When the pipeline has a Logger, however the drops fall, the Problems that name a reason and the count that is held for its next
-- Problem are together exactly the events dropped for that reason.
pub report_all-conserves :
    (ds : List Drop) (reason : String)
    → named reason (report_all ds no_reports).problems
        + count_of ((report_all ds no_reports).entries reason)
      ≡ lost reason ds
unfolding accounted named count_of
report_all-conserves ds reason = report_all-accounted ds no_reports reason refl ∙ omega arith
