-- ===== src/Propagate/Joins.antt =====
-- What one service injects, the next one extracts.
use wlog.Base.{◌≡◌, refl, ap, ◌∙◌, true, false, Option, some, String, str_eq, if◌then◌else◌, arith}
use wlog.Base.Strings.{Unicode, is_blank}
use wlog.Propagate.Traceparent.{
  Parent, is_trace_id, is_span_id, parse_traceparent, traceparent_header,
}
use wlog.Propagate.Traceparent.RoundTrip.{parse_traceparent-traceparent_header}
use wlog.Propagate.{
  TraceContext, Carrier, Config, set_header, is_request_id, request_id_of, carried, extracted,
  joined, extract, inject, span_of, set_unless_blank, first_parent,
}

-- A key that is not written keeps its value.
set_unless_blank-other :
    (key value k : String) (c : Carrier)
    → str_eq key k ≡ false
    → set_unless_blank key value c k ≡ c k
unfolding set_unless_blank set_header
set_unless_blank-other key value k c other =
    elim (is_blank value) as (λ b. (if b then c else set_header key value c) k ≡ c k) [
      | true ↦ refl
      | false ↦ rw other refl
    ]

set_unless_blank_self :
    (key value : String) (c : Carrier)
    → is_blank value ≡ false
    → str_eq key key ≡ true
    → set_unless_blank key value c key ≡ value
unfolding set_unless_blank set_header
set_unless_blank_self key value c full self = rw (full, self) refl

inject-traceparent :
    (tc : TraceContext) (call : Option String) (c : Carrier)
    → inject tc call c "traceparent" ≡ traceparent_header tc.trace_id (span_of tc call) tc.sampled
unfolding inject set_header
inject-traceparent tc call c =
    set_unless_blank-other "X-Request-ID" tc.request_id "traceparent" _ refl
    ∙ set_unless_blank-other "tracestate" tc.trace_state "traceparent" _ refl

-- What the next service makes of the headers.
next_hop : TraceContext → Option String → Carrier → String → TraceContext
unfolding joined
next_hop tc call c new_span =
    joined (inject tc call c) new_span
      (record { trace_id = tc.trace_id; span_id = span_of tc call; sampled = tc.sampled })

carried-parent :
    (u : Unicode) (cfg : Config) (c : Carrier) (p : Parent)
    → parse_traceparent (c "traceparent") ≡ some p
    → carried u cfg c ≡ some p
unfolding carried first_parent
carried-parent u cfg c p e = rw e refl

extract-next_hop :
    (u : Unicode) (cfg : Config) (prior : Option TraceContext) (new_trace new_span : String)
    (tc : TraceContext) (call : Option String) (c : Carrier)
    → is_trace_id tc.trace_id ≡ true
    → is_span_id (span_of tc call) ≡ true
    → extract u cfg prior new_trace new_span (inject tc call c) ≡ next_hop tc call c new_span
unfolding extract extracted next_hop
extract-next_hop u cfg prior new_trace new_span tc call c ht hs =
    ap (extracted (inject tc call c) prior new_trace new_span) (
      carried-parent u cfg (inject tc call c) _ (
        ap parse_traceparent (inject-traceparent tc call c)
        ∙ parse_traceparent-traceparent_header tc.trace_id (span_of tc call) tc.sampled ht hs))

is_request_id-full : (s : String) → is_request_id s ≡ true → is_blank s ≡ false
unfolding is_request_id
is_request_id-full s h = ground (arith, h)

request_id-kept :
    (tc : TraceContext) (call : Option String) (c : Carrier) (trace : String)
    → is_request_id tc.request_id ≡ true
    → request_id_of (inject tc call c "X-Request-ID") trace ≡ tc.request_id
unfolding inject request_id_of
request_id-kept tc call c trace h =
    rw
      (
        set_unless_blank_self "X-Request-ID" tc.request_id
            (set_unless_blank "tracestate" tc.trace_state (
              set_header "traceparent" (traceparent_header tc.trace_id (span_of tc call) tc.sampled)
                c))
            (is_request_id-full tc.request_id h) refl,
        h,
      )
      refl

-- For a trace id of 32 and a span of 16 lowercase hex digits, neither all zero, and a valid request
-- id, the service that receives the headers continues the same trace under its own span, whatever its
-- settings and the context it starts from are: the trace id, the sampled flag and the request id are
-- the sender's, and the parent is the span of the sender's call, or the sender's own outside of a call.
pub extract-inject :
    (u : Unicode) (cfg : Config) (prior : Option TraceContext) (new_trace new_span : String)
    (tc : TraceContext) (call : Option String) (c : Carrier)
    → is_trace_id tc.trace_id ≡ true
    → is_span_id (span_of tc call) ≡ true
    → is_request_id tc.request_id ≡ true
    → let next : TraceContext = extract u cfg prior new_trace new_span (inject tc call c) in
      (next.trace_id ≡ tc.trace_id)
      × (next.span_id ≡ new_span)
      × (next.parent_span_id ≡ span_of tc call)
      × (next.sampled ≡ tc.sampled)
      × (next.request_id ≡ tc.request_id)
unfolding next_hop
extract-inject u cfg prior new_trace new_span tc call c ht hs hr =
    let hop = extract-next_hop u cfg prior new_trace new_span tc call c ht hs in
    (
      ap (λ t. t.trace_id) hop,
      ap (λ t. t.span_id) hop,
      ap (λ t. t.parent_span_id) hop,
      ap (λ t. t.sampled) hop,
      ap (λ t. t.request_id) hop ∙ request_id-kept tc call c tc.trace_id hr,
    )
