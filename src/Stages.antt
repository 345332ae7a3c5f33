-- ===== src/Stages.antt =====
-- stages.go and the second half of event.go: what happens to an event once it ended, from the level
-- filter to the drains. A hook is code of the caller: it answers or it panics, and an enricher may
-- have written before it panics. What the drains receive is a list, newest first. The rate of a head
-- sampler is a value of a type of its own, of which the source asks whether it is below 100.
pub mod Finalize
pub mod Quiet
pub mod Fates
mod Tests
use wlog.Base.{
  ℕ, suc, ◌+◌, ◌≡◌, Bool, true, false, not, ◌&&◌, ◌||◌, Option, none, some, List, [], ◌∷◌, ◌++◌,
  String, str_eq, if◌then◌else◌, leb, ltb,
}
use wlog.Value.{Value, Fields, end, field, str, int, object}
use wlog.Base.Int.{pos}
use wlog.Value.Maps.{get, put, has, as_object}
use wlog.Event.{audit_field}
use wlog.Event.Errors.{level_rank}
use wlog.Stages.Finalize.{finalize_size}

pub data Reason : Type 0 where
  sampled : Reason
  level : Reason
  disabled : Reason
  closed : Reason
  too_large : Reason

-- `loggerStats`, the reported problems and what the drains got.
pub record Core : Type 0 where
  pub emitted : ℕ
  pub sampled : ℕ
  pub level : ℕ
  pub disabled : ℕ
  pub closed : ℕ
  pub too_large : ℕ
  pub problems : List String
  pub delivered : List Fields

module _ (A : Type 0) where
  pub data Hook : Type 0 where
    gave : A → Hook
    panicked : Hook

module _ (R : Type 0) where
  pub record Logger : Type 0 where
    pub whole : R
    pub is_partial : R → Bool
    pub rate_value : R → Value
    pub head_sampler : Option (String → String → Hook (Bool × R))
    pub keepers : List (Fields → Hook Bool)
    pub enrichers : List (Fields → Fields × Bool)
    pub redact : Fields → Fields
    pub summary : Fields → String
    pub fingerprint : String
    pub min_level : String
    pub is_debug : Bool
    pub is_closed : Bool
    pub is_enabled : Bool

pub count : Reason → Core → Core
count sampled s = record s { sampled = s.sampled + 1 }
count level s = record s { level = s.level + 1 }
count disabled s = record s { disabled = s.disabled + 1 }
count closed s = record s { closed = s.closed + 1 }
count too_large s = record s { too_large = s.too_large + 1 }

pub report : String → Core → Core
report code s = record s { problems = code ∷ s.problems }

-- A level that is not known has the rank 0.
rank_of : Option ℕ → ℕ
rank_of none = 0
rank_of (some n) = n

module _ {R : Type 0} (l : Logger R) where
  pub drop_event : Reason → Core → Core
  drop_event reason s =
      if l.is_debug then report "WLOG_EVENT_DROPPED" (count reason s) else count reason s

  level_from : Option Value → String
  level_from (some (str name)) = name
  level_from _ = ""

  trace_id_in : Option Fields → String
  trace_id_in none = ""
  trace_id_in (some trace) = level_from (get "trace_id" trace)

  pub trace_id_of : Fields → String
  unfolding trace_id_in
  trace_id_of event = trace_id_in (as_object (get "trace" event))

  -- `sampleOne`: a panic keeps the event.
  sampled_by : Hook (Bool × R) → Core → (Bool × R) × Core
  sampled_by (gave answer) s = (answer, s)
  sampled_by panicked s = ((true, l.whole), report "WLOG_HOOK_PANIC" s)

  ask_sampler : Option (String → String → Hook (Bool × R)) → Fields → Core → (Bool × R) × Core
  unfolding sampled_by level_from
  ask_sampler none event s = ((true, l.whole), s)
  ask_sampler (some sampler) event s =
      sampled_by (sampler (level_from (get "level" event)) (trace_id_of event)) s

  pub head_keep : Fields → Core → (Bool × R) × Core
  head_keep event s =
      if has audit_field event then ((true, l.whole), s) else ask_sampler l.head_sampler event s

  -- `keepOne`: a panic keeps the event.
  kept_by : Hook Bool → Core → Bool × Core
  kept_by (gave answer) s = (answer, s)
  kept_by panicked s = (true, report "WLOG_HOOK_PANIC" s)

  -- The keepers after the first that says yes are not asked.
  ask_next : (Core → Bool × Core) → Bool × Core → Bool × Core
  ask_next rest (true, s) = (true, s)
  ask_next rest (false, s) = rest s

  ask_keepers : List (Fields → Hook Bool) → Fields → Core → Bool × Core
  unfolding kept_by ask_next
  ask_keepers [] event s = (false, s)
  ask_keepers (k ∷ ks) event s = ask_next (ask_keepers ks event) (kept_by (k event) s)

  pub keep_event : Fields → Core → Bool × Core
  keep_event event s = ask_keepers l.keepers event s

  -- `safeEnrich`
  enriched_by : Fields × Bool → Core → Fields × Core
  enriched_by (event, false) s = (event, s)
  enriched_by (event, true) s = (event, report "WLOG_HOOK_PANIC" s)

  enrich_with : List (Fields → Fields × Bool) → Fields → Core → Fields × Core
  unfolding enriched_by
  enrich_with [] event s = (event, s)
  enrich_with (en ∷ ens) event s =
      let (event', s') = enriched_by (en event) s in enrich_with ens event' s'

  pub run_enrichers : Fields → Core → Fields × Core
  run_enrichers event s = enrich_with l.enrichers event s

  no_keepers : List (Fields → Hook Bool) → Bool
  no_keepers [] = true
  no_keepers (k ∷ ks) = false

  no_sampler : Option (String → String → Hook (Bool × R)) → Bool
  no_sampler none = true
  no_sampler (some f) = false

  save : Bool → Bool × Core → Bool × Core
  save keep (saved, s) = (saved || keep, s)

  -- The tail keep: the keepers are asked when the head decision left room for a rescue.
  pub tail_keep : Bool → R → Fields → Core → Bool × Core
  unfolding no_sampler save
  tail_keep keep rate event s =
      if not (has audit_field event)
        && (not keep || (no_sampler l.head_sampler || l.is_partial rate))
      then save keep (keep_event event s)
      else (keep, s)

  wlog_fields : Option Fields → Fields
  wlog_fields none = field "schema_version" (int (pos 2)) end
  wlog_fields (some fields) = fields

  with_fingerprint : Fields → Fields
  with_fingerprint fields =
      if str_eq l.fingerprint ""
      then fields
      else put "redact_fingerprint" (str l.fingerprint) fields

  with_rate : R → Fields → Fields
  unfolding no_sampler
  with_rate rate fields =
      if no_sampler l.head_sampler then fields else put "sample_rate" (l.rate_value rate) fields

  -- The event as finalize gets it: redacted, with its summary and the `wlog` group.
  pub prepare : R → Fields → Fields
  unfolding wlog_fields with_fingerprint with_rate
  prepare rate event =
      let out = put "summary" (str (l.summary (l.redact event))) (l.redact event) in
      put "wlog"
        (object (with_rate rate (with_fingerprint (wlog_fields (as_object (get "wlog" out)))))) out

  deliver : Option (Fields × Bool) → Core → Core
  deliver none s = drop_event too_large s
  deliver (some (out, trimmed)) s =
      let told = if trimmed then report "WLOG_EVENT_TOO_LARGE" s else s in
      record told { emitted = told.emitted + 1; delivered = out ∷ told.delivered }

  finish : R → Fields → Bool × Core → Core
  unfolding deliver
  finish rate event (false, s) = drop_event sampled s
  finish rate event (true, s) = deliver (finalize_size (prepare rate event)) s

  rescued : R → Bool → Fields × Core → Core
  unfolding finish
  rescued rate keep (event, s) = finish rate event (tail_keep keep rate event s)

  sampled_out : Fields → (Bool × R) × Core → Core
  unfolding rescued no_keepers
  sampled_out event ((keep, rate), s) =
      if not keep && no_keepers l.keepers
      then drop_event sampled s
      else rescued rate keep (run_enrichers event s)

  pub pipeline : Fields → Core → Core
  unfolding sampled_out
  pipeline event s = sampled_out event (head_keep event s)

  is_below : String → Bool
  is_below name = ltb (rank_of (level_rank name)) (rank_of (level_rank l.min_level))

  -- `emit`, of an event of a level and with or without audit records.
  pub filter_level : String → Bool → Fields → Core → Core
  filter_level name audit event s =
      if not audit && is_below name then drop_event level s else pipeline event s

  pub emit : String → Bool → Fields → Core → Core
  emit name audit event s =
      if l.is_closed
      then drop_event closed (report "WLOG_LOGGER_CLOSED" s)
      else filter_level name audit event s

  -- `plainLine`, of a line that is made already.
  pub plain_line : String → Bool → Fields → Core → Core
  plain_line name any_level line s =
      if l.is_enabled
      then (if not any_level && is_below name then drop_event level s else pipeline line s)
      else drop_event disabled s
