-- ===== src/Propagate/Fallback.antt =====
-- propagate/xray.go: the B3 and X-Ray headers, which are only read.
use Prim.Native.String.{[] as blank, ◌∷◌ as prepend}
use Prim.Native.Char.{Char, code}
use wlog.Base.{
  Bool, true, false, ◌&&◌, ◌||◌, Option, none, some, List, [], ◌∷◌, String, str_eq, if◌then◌else◌,
  ◌==◌,
}
use wlog.Base.Strings.{Unicode, ◌<>◌, split, trim, map_chars, is_blank}
use wlog.Propagate.Traceparent.{Parent, is_dash, is_hex}

-- The sampling state of the single header: a missing one counts as sampled.
single_sampled : List String → Bool
single_sampled [] = true
single_sampled (state ∷ rest) = str_eq state "1" || str_eq state "d"

b3_single : List String → Option Parent
unfolding single_sampled
b3_single (trace ∷ span ∷ rest) =
    if is_hex trace 32 && is_hex span 16
    then some (record { trace_id = trace; span_id = span; sampled = single_sampled rest })
    else none
b3_single _ = none

b3_multi : String → String → String → Option Parent
b3_multi trace span sampled =
    if is_hex trace 32 && is_hex span 16
    then some (record { trace_id = trace; span_id = span; sampled = str_eq sampled "1" })
    else none

or_multi : Option Parent → Option Parent → Option Parent
or_multi (some p) multi = some p
or_multi none multi = multi

pub b3_trace : (String → String) → Option Parent
unfolding b3_single b3_multi or_multi
b3_trace c =
    or_multi (if is_blank (c "b3") then none else b3_single (split is_dash (c "b3")))
      (b3_multi (c "X-B3-TraceId") (c "X-B3-SpanId") (c "X-B3-Sampled"))

-- The version digit and the dashes of a root fall away.
xray_of_parts : List String → String
xray_of_parts (version ∷ epoch ∷ unique ∷ []) =
    if str_eq version "1" && is_hex (epoch <> unique) 32 then epoch <> unique else ""
xray_of_parts _ = ""

xray_id : String → String
unfolding xray_of_parts
xray_id root = xray_of_parts (split is_dash root)

-- `strings.Cut` at the first equals sign.
cut_on : Char → Option (String × String) → Option (String × String)
cut_on c none = none
cut_on c (some (key, value)) = some (prepend c key, value)

cut : String → Option (String × String)
unfolding cut_on
cut blank = none
cut (prepend c s) = let rest = cut s in if code c == 61 then some ("", s) else cut_on c rest

with_pair : Unicode → Option (String × String) → Parent → Parent
unfolding xray_id
with_pair u none p = p
with_pair u (some (key, value)) p =
    let name = map_chars u.to_lower key in
    if str_eq name "root"
    then record p { trace_id = xray_id value }
    else if str_eq name "parent"
    then (if is_hex value 16 then record p { span_id = value } else p)
    else if str_eq name "sampled"
    then record p { sampled = str_eq value "1" }
    else p

with_pairs : Unicode → List String → Parent → Parent
unfolding with_pair cut
with_pairs u [] p = p
with_pairs u (pair ∷ rest) p = with_pairs u rest (with_pair u (cut (trim u.is_space pair)) p)

xray_header : (String → String) → String
xray_header c = if is_blank (c "X-Amzn-Trace-Id") then c "AWSTraceHeader" else c "X-Amzn-Trace-Id"

found_root : Parent → Option Parent
found_root p = if is_blank p.trace_id then none else some p

pub xray_trace : Unicode → (String → String) → Option Parent
unfolding with_pairs xray_header found_root
xray_trace u c =
    if is_blank (xray_header c)
    then none
    else found_root (
        with_pairs u (split (λ d. code d == 59) (xray_header c))
          (record { trace_id = ""; span_id = ""; sampled = false }))
