-- ===== src/Propagate/Tests.antt =====
-- A trace that two services share.
use wlog.Base.{ℕ, ◌≡◌, refl, Bool, true, false, Option, none, some, String}
use wlog.Base.Strings.{Unicode}
use wlog.Propagate.Traceparent.{Parent, parse_traceparent, traceparent_header}
use wlog.Propagate.Traceparent.RoundTrip.{parse_traceparent-traceparent_header}
use wlog.Propagate.{TraceContext, Carrier, Config, extract, inject, span_of}
use wlog.Propagate.Joins.{extract-inject}

abbrev letters : Unicode
letters = record {
  is_space = λ c. false;
  is_upper = λ c. false;
  is_lower = λ c. true;
  to_lower = λ c. c;
}

abbrev trace : String
trace = "4bf92f3577b34da6a3ce929d0e0e4736"

abbrev span : String
span = "00f067aa0ba902b7"

abbrev sender : TraceContext
sender = record {
  trace_id = trace;
  span_id = span;
  parent_span_id = "";
  sampled = true;
  trace_state = "";
  request_id = "req-1";
}

abbrev no_headers : Carrier
no_headers k = ""

abbrev all_formats : Config
all_formats = record { b3 = true; xray = true }

parse_traceparent-traceparent_header_example :
    parse_traceparent (traceparent_header trace span true)
    ≡ some (record { trace_id = trace; span_id = span; sampled = true })
unfolding wlog.Propagate.Traceparent.is_hex wlog.Base.Strings.all_chars
    wlog.Propagate.Traceparent.is_zero
parse_traceparent-traceparent_header_example =
    parse_traceparent-traceparent_header trace span true refl refl

extract-inject_example :
    let next : TraceContext =
      extract letters all_formats none "new" "b7ad6b7169203331" (inject sender none no_headers) in
    (next.trace_id ≡ trace)
    × (next.span_id ≡ "b7ad6b7169203331")
    × (next.parent_span_id ≡ span)
    × (next.sampled ≡ true)
    × (next.request_id ≡ "req-1")
unfolding wlog.Propagate.Traceparent.is_hex wlog.Base.Strings.all_chars
    wlog.Propagate.Traceparent.is_zero span_of wlog.Propagate.is_request_id
extract-inject_example =
    extract-inject letters all_formats none "new" "b7ad6b7169203331" sender none no_headers refl
      refl refl
