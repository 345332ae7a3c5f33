-- ===== src/Stages/Quiet.antt =====
-- The stages that only report problems: samplers, keepers and enrichers.
use wlog.Base.{
  ℕ, ◌+◌, ◌≡◌, refl, ◌∙◌, Bool, true, false, Option, none, some, List, [], ◌∷◌, String,
  if◌then◌else◌,
}
use wlog.Value.{Fields}
use wlog.Value.Maps.{has}
use wlog.Event.{audit_field}
use wlog.Stages.{
  Core, Hook, gave, panicked, Logger, report, sampled_by, ask_sampler, head_keep, kept_by, ask_next,
  ask_keepers, keep_event, enriched_by, enrich_with, run_enrichers, save, tail_keep,
}

-- The number of events that were emitted or dropped.
abbrev pub settled : Core → ℕ
settled s = s.emitted + s.sampled + s.level + s.disabled + s.closed + s.too_large

-- A stage that only reports problems.
pub record Quiet (s s' : Core) : Type 0 where
  pub settled_same : settled s' ≡ settled s
  pub sampled_same : s'.sampled ≡ s.sampled
  pub level_same : s'.level ≡ s.level
  pub emitted_same : s'.emitted ≡ s.emitted
  pub delivered_same : s'.delivered ≡ s.delivered

Quiet-refl : (s : Core) → Quiet s s
Quiet-refl s = record {
  settled_same = refl;
  sampled_same = refl;
  level_same = refl;
  emitted_same = refl;
  delivered_same = refl;
}

pub report-Quiet : (code : String) (s : Core) → Quiet s (report code s)
unfolding report
report-Quiet code s = record {
  settled_same = refl;
  sampled_same = refl;
  level_same = refl;
  emitted_same = refl;
  delivered_same = refl;
}

Quiet-trans : {s s' s'' : Core} → Quiet s s' → Quiet s' s'' → Quiet s s''
Quiet-trans a b = record {
  settled_same = b.settled_same ∙ a.settled_same;
  sampled_same = b.sampled_same ∙ a.sampled_same;
  level_same = b.level_same ∙ a.level_same;
  emitted_same = b.emitted_same ∙ a.emitted_same;
  delivered_same = b.delivered_same ∙ a.delivered_same;
}

module _ {R : Type 0} (l : Logger R) where
  debug_when : (b : Bool) (s : Core) → Quiet s (if b then report "WLOG_EVENT_DROPPED" s else s)
  debug_when true s = report-Quiet "WLOG_EVENT_DROPPED" s
  debug_when false s = Quiet-refl s

  kept_by-Quiet : (h : Hook Bool) (s : Core) → Quiet s (kept_by l h s).1
  unfolding kept_by
  kept_by-Quiet (gave answer) s = Quiet-refl s
  kept_by-Quiet panicked s = report-Quiet "WLOG_HOOK_PANIC" s

  ask_next-Quiet :
      (rest : Core → Bool × Core) (x : Bool × Core)
      → ((s : Core) → Quiet s (rest s).1)
      → Quiet x.1 (ask_next l rest x).1
  unfolding ask_next
  ask_next-Quiet rest (true, s) h = Quiet-refl s
  ask_next-Quiet rest (false, s) h = h s

  ask_keepers-Quiet :
      (ks : List (Fields → Hook Bool)) (event : Fields) (s : Core)
      → Quiet s (ask_keepers l ks event s).1
  unfolding ask_keepers
  ask_keepers-Quiet [] event s = Quiet-refl s
  ask_keepers-Quiet (k ∷ ks) event s =
      Quiet-trans (kept_by-Quiet (k event) s) (
        ask_next-Quiet (ask_keepers l ks event) (kept_by l (k event) s)
          (ask_keepers-Quiet ks event))

  enriched_by-Quiet : (x : Fields × Bool) (s : Core) → Quiet s (enriched_by l x s).1
  unfolding enriched_by
  enriched_by-Quiet (event, false) s = Quiet-refl s
  enriched_by-Quiet (event, true) s = report-Quiet "WLOG_HOOK_PANIC" s

  enrich_with-Quiet :
      (ens : List (Fields → Fields × Bool)) (event : Fields) (s : Core)
      → Quiet s (enrich_with l ens event s).1
  unfolding enrich_with
  enrich_with-Quiet [] event s = Quiet-refl s
  enrich_with-Quiet (en ∷ ens) event s =
      Quiet-trans (enriched_by-Quiet (en event) s) (enrich_with-Quiet ens _ _)

  pub run_enrichers-Quiet : (event : Fields) (s : Core) → Quiet s (run_enrichers l event s).1
  unfolding run_enrichers
  run_enrichers-Quiet event s = enrich_with-Quiet l.enrichers event s

  sampled_by-Quiet : (h : Hook (Bool × R)) (s : Core) → Quiet s (sampled_by l h s).1
  unfolding sampled_by
  sampled_by-Quiet (gave answer) s = Quiet-refl s
  sampled_by-Quiet panicked s = report-Quiet "WLOG_HOOK_PANIC" s

  ask_sampler-Quiet :
      (f : Option (String → String → Hook (Bool × R))) (event : Fields) (s : Core)
      → Quiet s (ask_sampler l f event s).1
  unfolding ask_sampler
  ask_sampler-Quiet none event s = Quiet-refl s
  ask_sampler-Quiet (some f) event s = sampled_by-Quiet (f _ _) s

  pub head_keep-Quiet : (event : Fields) (s : Core) → Quiet s (head_keep l event s).1
  unfolding head_keep
  head_keep-Quiet event s =
      elim (has audit_field event)
        as (λ b.
          Quiet s (if b then ((true, l.whole), s) else ask_sampler l l.head_sampler event s).1) [
            | true ↦ Quiet-refl s
            | false ↦ ask_sampler-Quiet l.head_sampler event s
          ]

  asked_when :
      (b keep : Bool) (event : Fields) (s : Core)
      → Quiet s
          (let x : Bool × Core = if b then save l keep (keep_event l event s) else (keep, s) in x.1)
  unfolding keep_event save
  asked_when true keep event s = ask_keepers-Quiet l.keepers event s
  asked_when false keep event s = Quiet-refl s

  pub tail_keep-Quiet :
      (keep : Bool) (rate : R) (event : Fields) (s : Core)
      → Quiet s (tail_keep l keep rate event s).1
  unfolding tail_keep
  tail_keep-Quiet keep rate event s = asked_when _ keep event s
