-- ===== src/Stages/Fates.antt =====
-- Every event that ends has exactly one fate, and an event with audit records is never filtered.
use wlog.Base.{
  suc, ◌+◌, ◌≡◌, refl, ap, ◌∙◌, Bool, true, false, not, ◌&&◌, ◌||◌, Option, none, some, String,
  if◌then◌else◌, length, arith,
}
use wlog.Value.{Fields}
use wlog.Value.Maps.{has}
use wlog.Event.{audit_field}
use wlog.Stages.Finalize.{finalize_size}
use wlog.Stages.{
  Reason, sampled, level, disabled, closed, too_large, Core, Logger, count, report, drop_event,
  ask_sampler, head_keep, keep_event, run_enrichers, no_keepers, save, tail_keep, prepare, deliver,
  finish, rescued, sampled_out, pipeline, is_below, filter_level, emit, plain_line,
}
use wlog.Stages.Quiet.{
  settled, Quiet, report-Quiet, head_keep-Quiet, tail_keep-Quiet, run_enrichers-Quiet,
}

-- One event's fate: one counter went up, and the drains got the event when it is `emitted`.
record Fated (s s' : Core) : Type 0 where
  one : settled s' ≡ suc (settled s)
  sent : length s'.delivered + s.emitted ≡ length s.delivered + s'.emitted
  level_kept : s'.level ≡ s.level

Quiet-Fated : {s s' s'' : Core} → Quiet s s' → Fated s' s'' → Fated s s''
Quiet-Fated q f = record {
  one = omega (arith, q.settled_same, f.one);
  sent = omega (arith, f.sent, q.emitted_same, ap length q.delivered_same);
  level_kept = f.level_kept ∙ q.level_same;
}

module _ {R : Type 0} (l : Logger R) where
  drop_sampled : (s : Core) → Fated s (drop_event l sampled s)
  unfolding drop_event count report
  drop_sampled s =
      elim l.is_debug
        as (λ b.
          Fated s (if b then report "WLOG_EVENT_DROPPED" (count sampled s) else count sampled s)) [
            | true ↦ record { one = omega arith; sent = refl; level_kept = refl }
            | false ↦ record { one = omega arith; sent = refl; level_kept = refl }
          ]

  -- Past the samplers: the event is emitted, or dropped as too large.
  record Passed (s s' : Core) : Type 0 where
    fated : Fated s s'
    not_sampled : s'.sampled ≡ s.sampled

  drop_too_large : (s : Core) → Passed s (drop_event l too_large s)
  unfolding drop_event count report
  drop_too_large s =
      elim l.is_debug
        as (λ b.
          Passed s
            (if b then report "WLOG_EVENT_DROPPED" (count too_large s) else count too_large s)) [
              | true ↦ record {
                fated = record { one = omega arith; sent = refl; level_kept = refl };
                not_sampled = refl;
              }
              | false ↦ record {
                fated = record { one = omega arith; sent = refl; level_kept = refl };
                not_sampled = refl;
              }
            ]

  deliver-Passed : (o : Option (Fields × Bool)) (s : Core) → Passed s (deliver l o s)
  unfolding deliver report
  deliver-Passed none s = drop_too_large s
  deliver-Passed (some (out, true)) s = record {
    fated = record { one = omega arith; sent = omega arith; level_kept = refl };
    not_sampled = refl;
  }
  deliver-Passed (some (out, false)) s = record {
    fated = record { one = omega arith; sent = omega arith; level_kept = refl };
    not_sampled = refl;
  }

  finish-Fated : (rate : R) (event : Fields) (x : Bool × Core) → Fated x.1 (finish l rate event x)
  unfolding finish
  finish-Fated rate event (false, s) = drop_sampled s
  finish-Fated rate event (true, s) =
      (deliver-Passed (finalize_size (prepare l rate event)) s).fated

  rescued-Fated : (rate : R) (keep : Bool) (x : Fields × Core) → Fated x.1 (rescued l rate keep x)
  unfolding rescued
  rescued-Fated rate keep (event, s) =
      Quiet-Fated (tail_keep-Quiet l keep rate event s)
        (finish-Fated rate event (tail_keep l keep rate event s))

  sampled_out-Fated : (event : Fields) (x : (Bool × R) × Core) → Fated x.1 (sampled_out l event x)
  unfolding sampled_out
  sampled_out-Fated event ((keep, rate), s) =
      elim (not keep && no_keepers l l.keepers)
        as (λ b.
          Fated s
            (if b then drop_event l sampled s else rescued l rate keep (run_enrichers l event s))) [
              | true ↦ drop_sampled s
              | false ↦
                  Quiet-Fated (run_enrichers-Quiet l event s)
                    (rescued-Fated rate keep (run_enrichers l event s))
            ]

  pipeline-Fated : (event : Fields) (s : Core) → Fated s (pipeline l event s)
  unfolding pipeline
  pipeline-Fated event s =
      Quiet-Fated (head_keep-Quiet l event s) (sampled_out-Fated event (head_keep l event s))

  -- One counter of fates went up, and the drains got the event when it is `emitted`.
  pub IsSettled : Core → Core → Type 0
  IsSettled s s' =
      (settled s' ≡ suc (settled s))
      × (length s'.delivered + s.emitted ≡ length s.delivered + s'.emitted)

  Fated-IsSettled : {s s' : Core} → Fated s s' → IsSettled s s'
  unfolding IsSettled
  Fated-IsSettled f = (f.one, f.sent)

  drop-IsSettled : (reason : Reason) (s : Core) → IsSettled s (drop_event l reason s)
  unfolding drop_event IsSettled report count
  drop-IsSettled reason s =
      elim l.is_debug
        as (λ b.
          IsSettled s
            (if b then report "WLOG_EVENT_DROPPED" (count reason s) else count reason s)) [
              | true ↦ counted reason
              | false ↦ counted reason
            ]
    where
      counted :
          (r : Reason)
          → (settled (count r s) ≡ suc (settled s))
            × (length (count r s).delivered + s.emitted ≡ length s.delivered + (count r s).emitted)
      counted sampled = (omega arith, refl)
      counted level = (omega arith, refl)
      counted disabled = (omega arith, refl)
      counted closed = (omega arith, refl)
      counted too_large = (omega arith, refl)

  filter_when :
      (b : Bool) (event : Fields) (s : Core)
      → IsSettled s (if b then drop_event l level s else pipeline l event s)
  filter_when true event s = drop-IsSettled level s
  filter_when false event s = Fated-IsSettled (pipeline-Fated event s)

  -- Whatever the hooks answer, where they panic and what an enricher writes, emit counts an event as
  -- emitted or as dropped for one reason, exactly once, and the drains get one event more exactly
  -- when one more is counted as emitted.
  pub emit-IsSettled :
      (name : String) (audit : Bool) (event : Fields) (s : Core)
      → IsSettled s (emit l name audit event s)
  unfolding emit filter_level IsSettled
  emit-IsSettled name audit event s =
      elim l.is_closed
        as (λ b. IsSettled s (
          if b
          then drop_event l closed (report "WLOG_LOGGER_CLOSED" s)
          else filter_level l name audit event s)) [
            | true ↦
                reported (drop_event l closed (report "WLOG_LOGGER_CLOSED" s))
                  (report-Quiet "WLOG_LOGGER_CLOSED" s)
                  (drop-IsSettled closed (report "WLOG_LOGGER_CLOSED" s))
            | false ↦ filter_when _ event s
          ]
    where
      reported : {s s' : Core} (s'' : Core) → Quiet s s' → IsSettled s' s'' → IsSettled s s''
      reported s'' q (one, sent) = (
        omega (arith, q.settled_same, one),
        omega (arith, sent, q.emitted_same, ap length q.delivered_same),
      )

  -- A line that plainLine gets is counted as emitted or as dropped for one reason, exactly once, and
  -- the drains get it exactly when one more is counted as emitted.
  pub plain_line-IsSettled :
      (name : String) (any_level : Bool) (line : Fields) (s : Core)
      → IsSettled s (plain_line l name any_level line s)
  unfolding plain_line
  plain_line-IsSettled name any_level line s =
      elim l.is_enabled
        as (λ b. IsSettled s (
          if b
          then (if not any_level && is_below l name
              then drop_event l level s
              else pipeline l line s)
          else drop_event l disabled s)) [
            | true ↦ filter_when _ line s
            | false ↦ drop-IsSettled disabled s
          ]

  true_or : (b : Bool) → b || true ≡ true
  true_or true = refl
  true_or false = refl

  -- An event that the head decision kept is not lost to the keepers.
  kept_when :
      (b : Bool) (event : Fields) (s : Core)
      → (let x : Bool × Core = if b then save l true (keep_event l event s) else (true, s) in x.0)
        ≡ true
  unfolding save
  kept_when true event s = true_or (keep_event l event s).0
  kept_when false event s = refl

  tail_keep-kept : (rate : R) (event : Fields) (s : Core) → (tail_keep l true rate event s).0 ≡ true
  unfolding tail_keep
  tail_keep-kept rate event s = kept_when _ event s

  finish-kept :
      (rate : R) (event : Fields) (x : Bool × Core)
      → x.0 ≡ true
      → (finish l rate event x).sampled ≡ x.1.sampled
  unfolding finish
  finish-kept rate event (true, s) kept =
      (deliver-Passed (finalize_size (prepare l rate event)) s).not_sampled
  finish-kept rate event (false, s) kept = cc

  rescued-kept : (rate : R) (x : Fields × Core) → (rescued l rate true x).sampled ≡ x.1.sampled
  unfolding rescued
  rescued-kept rate (event, s) =
      finish-kept rate event (tail_keep l true rate event s) (tail_keep-kept rate event s)
      ∙ (tail_keep-Quiet l true rate event s).sampled_same

  sampled_out-kept :
      (event : Fields) (rate : R) (s : Core)
      → (sampled_out l event ((true, rate), s)).sampled ≡ s.sampled
  unfolding sampled_out
  sampled_out-kept event rate s =
      rescued-kept rate (run_enrichers l event s) ∙ (run_enrichers-Quiet l event s).sampled_same

  head_keep-audit :
      (event : Fields) (s : Core)
      → has audit_field event ≡ true
      → head_keep l event s ≡ (let x : (Bool × R) × Core = ((true, l.whole), s) in x)
  unfolding head_keep
  head_keep-audit event s audit =
      ap
        (λ b.
          let x : (Bool × R) × Core =
            if b then ((true, l.whole), s) else ask_sampler l l.head_sampler event s in
          x)
        audit

  -- An event with audit records is never filtered: neither the level filter nor the head sampler
  -- nor a keeper drops it, whatever its level is and whatever the hooks answer.
  pub filter_level-audit :
      (name : String) (event : Fields) (s : Core)
      → has audit_field event ≡ true
      → ((filter_level l name true event s).sampled ≡ s.sampled)
        × ((filter_level l name true event s).level ≡ s.level)
  unfolding filter_level pipeline
  filter_level-audit name event s audit = (
    ap (λ x. (sampled_out l event x).sampled) (head_keep-audit event s audit)
        ∙ sampled_out-kept event l.whole s,
    (pipeline-Fated event s).level_kept,
  )
