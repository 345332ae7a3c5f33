-- ===== src/Propagate.antt =====
-- propagate/: the trace context that travels in the headers of a message. A carrier is its `Get`, a
-- function of the key; it matches a key exactly, as MapCarrier and BytesCarrier do. The random
-- source is an argument, and so are the trace context that the context holds already and the span
-- of a call in progress.
pub mod Traceparent
pub mod Fallback
pub mod Joins
mod Tests
use Prim.Native.Char.{Char, code}
use Prim.Native.String.{len}
use wlog.Base.{
  ℕ, ◌≤◌, Bool, true, false, not, ◌&&◌, ◌||◌, Option, none, some, String, str_eq, if◌then◌else◌,
  leb, ◌==◌,
}
use wlog.Base.Strings.{Unicode, all_chars, is_blank}
use wlog.Propagate.Traceparent.{Parent, parse_traceparent, traceparent_header}
use wlog.Propagate.Fallback.{b3_trace, xray_trace}

abbrev pub max_request_id : ℕ
max_request_id = 128

pub record TraceContext : Type 0 where
  pub trace_id : String
  pub span_id : String
  pub parent_span_id : String
  pub sampled : Bool
  pub trace_state : String
  pub request_id : String

abbrev pub Carrier : Type 0
Carrier = String → String

-- `Set` of a carrier.
unfoldable pub set_header : String → String → Carrier → Carrier
set_header key value c k = if str_eq key k then value else c k

pub record Config : Type 0 where
  pub b3 : Bool
  pub xray : Bool

-- The request id alphabet: letters, digits and `.`, `_`, `:`, `-`. A character outside of ASCII has
-- only bytes outside of it.
valid_request_id_byte : Char → Bool
valid_request_id_byte c =
    (leb 65 (code c) && leb (code c) 90)
    || ((leb 97 (code c) && leb (code c) 122)
        || ((leb 48 (code c) && leb (code c) 57)
            || (code c == 46 || (code c == 95 || (code c == 58 || code c == 45)))))

unfoldable pub is_request_id : String → Bool
unfolding valid_request_id_byte
is_request_id value =
    not (is_blank value)
    && (leb (len value) max_request_id && all_chars valid_request_id_byte value)

unfoldable pub request_id_of : String → String → String
request_id_of value trace_id = if is_request_id value then value else trace_id

-- The parent that the carrier names: traceparent first, then the formats that are turned on.
first_parent : Option Parent → Option Parent → Option Parent
first_parent (some p) other = some p
first_parent none other = other

unfoldable pub carried : Unicode → Config → Carrier → Option Parent
unfolding first_parent
carried u cfg c =
    first_parent (parse_traceparent (c "traceparent")) (
      first_parent (if cfg.b3 then b3_trace c else none)
        (if cfg.xray then xray_trace u c else none))

-- Whether the context that Extract starts from holds a trace context with both ids.
has_ids : Option TraceContext → Bool
has_ids none = false
has_ids (some tc) = not (is_blank tc.trace_id) && not (is_blank tc.span_id)

-- A trace from the carrier: its span is the caller's.
joined : Carrier → String → Parent → TraceContext
joined c new_span p = record {
  trace_id = p.trace_id;
  span_id = new_span;
  parent_span_id = p.span_id;
  sampled = p.sampled;
  trace_state = c "tracestate";
  request_id = request_id_of (c "X-Request-ID") p.trace_id;
}

fresh : Carrier → String → String → TraceContext
fresh c new_trace new_span = record {
  trace_id = new_trace;
  span_id = new_span;
  parent_span_id = "";
  sampled = false;
  trace_state = c "tracestate";
  request_id = request_id_of (c "X-Request-ID") new_trace;
}

-- The ids that a Starter wrote stay; a request id that was copied from the new trace id follows.
kept : TraceContext → Option TraceContext → TraceContext
kept tc none = tc
kept tc (some prior) = record tc {
  trace_id = prior.trace_id;
  span_id = prior.span_id;
  sampled = prior.sampled;
  request_id = if str_eq tc.request_id tc.trace_id then prior.trace_id else tc.request_id;
}

extracted : Carrier → Option TraceContext → String → String → Option Parent → TraceContext
unfolding joined fresh kept has_ids
extracted c prior new_trace new_span (some p) = joined c new_span p
extracted c prior new_trace new_span none =
    if has_ids prior then kept (fresh c new_trace new_span) prior else fresh c new_trace new_span

unfoldable pub extract :
    Unicode → Config → Option TraceContext → String → String → Carrier → TraceContext
unfolding extracted
extract u cfg prior new_trace new_span c = extracted c prior new_trace new_span (carried u cfg c)

-- The span that a message carries: that of the call in progress, where there is one.
unfoldable pub span_of : TraceContext → Option String → String
span_of tc none = tc.span_id
span_of tc (some call_span) = call_span

set_unless_blank : String → String → Carrier → Carrier
set_unless_blank key value c = if is_blank value then c else set_header key value c

unfoldable pub inject : TraceContext → Option String → Carrier → Carrier
unfolding set_unless_blank
inject tc call c = set_unless_blank "X-Request-ID" tc.request_id (
    set_unless_blank "tracestate" tc.trace_state
      (set_header "traceparent" (traceparent_header tc.trace_id (span_of tc call) tc.sampled) c))
