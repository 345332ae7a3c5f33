-- ===== src/Propagate/Traceparent/RoundTrip.antt =====
-- A traceparent header that is written reads back as it was.
use wlog.Base.{
  ℕ, ◌≡◌, refl, ap, ◌∙◌, Bool, true, false, not, ◌&&◌, some, [], ◌∷◌, String, if◌then◌else◌, arith,
}
use wlog.Base.Strings.{◌<>◌, all_chars, split, split-append}
use wlog.Propagate.Traceparent.{
  is_dash, is_hex, is_zero, is_trace_id, is_span_id, valid_version, is_odd_hex, parse_parts,
  parse_traceparent, traceparent_header, hex_has_no_dash,
}

split_dash :
    (s t : String)
    → all_chars (λ c. not (is_dash c)) s ≡ true
    → split is_dash (s <> ("-" <> t)) ≡ s ∷ split is_dash t
unfolding ◌<>◌
split_dash s t h = split-append is_dash s _ t h refl

no_dash :
    (s : String) (n : ℕ)
    → is_hex s n && not (is_zero s) ≡ true
    → all_chars (λ c. not (is_dash c)) s ≡ true
no_dash s n h = hex_has_no_dash s n (ground (arith, h))

flags_of : (b : Bool) → split is_dash (if b then "01" else "00") ≡ (if b then "01" else "00") ∷ []
unfolding split
flags_of true = refl
flags_of false = refl

header_parts :
    (t s : String) (b : Bool)
    → is_trace_id t ≡ true
    → is_span_id s ≡ true
    → split is_dash (traceparent_header t s b) ≡ "00" ∷ t ∷ s ∷ (if b then "01" else "00") ∷ []
unfolding traceparent_header ◌<>◌ all_chars
header_parts t s b ht hs =
    split_dash "00" (t <> ("-" <> (s <> ("-" <> (if b then "01" else "00"))))) refl
    ∙ ap (◌∷◌ "00") (
        split_dash t (s <> ("-" <> (if b then "01" else "00"))) (no_dash t 32 ht)
        ∙ ap (◌∷◌ t)
            (split_dash s (if b then "01" else "00") (no_dash s 16 hs) ∙ ap (◌∷◌ s) (flags_of b)))

flags_hex : (b : Bool) → is_hex (if b then "01" else "00") 2 ≡ true
unfolding is_hex all_chars
flags_hex true = refl
flags_hex false = refl

flags_odd : (b : Bool) → is_odd_hex (if b then "01" else "00") ≡ b
unfolding is_odd_hex
flags_odd true = refl
flags_odd false = refl

parse_parts-valid :
    (t s flags : String)
    → is_trace_id t ≡ true
    → is_span_id s ≡ true
    → is_hex flags 2 ≡ true
    → parse_parts ("00" ∷ t ∷ s ∷ flags ∷ [])
      ≡ some (record { trace_id = t; span_id = s; sampled = is_odd_hex flags })
unfolding parse_parts valid_version is_hex all_chars
parse_parts-valid t s flags ht hs hf = rw (ht, hs, hf) refl

-- A header that is written for a trace id of 32 and a span id of 16 lowercase hex digits, neither
-- all zero, is read back as the same ids and the same sampled flag.
pub parse_traceparent-traceparent_header :
    (t s : String) (b : Bool)
    → is_trace_id t ≡ true
    → is_span_id s ≡ true
    → parse_traceparent (traceparent_header t s b)
      ≡ some (record { trace_id = t; span_id = s; sampled = b })
unfolding parse_traceparent
parse_traceparent-traceparent_header t s b ht hs =
    ap parse_parts (header_parts t s b ht hs)
    ∙ parse_parts-valid t s (if b then "01" else "00") ht hs (flags_hex b)
    ∙ ap (λ sampled. some (record { trace_id = t; span_id = s; sampled = sampled })) (flags_odd b)
