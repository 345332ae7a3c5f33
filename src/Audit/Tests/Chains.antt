-- ===== src/Audit/Tests/Chains.antt =====
-- A journal of a hundred events and the marker after them, with a codec that writes the chain.
use wlog.Base.{
  ℕ, zero, suc, ◌%◌, ◌≤◌, ◌<◌, ◌≡◌, ◌⊎◌, refl, ap, sym, subst, ◌∙◌, Bool, true, false, Option, none,
  some, List, [], ◌∷◌, ◌++◌, ◌==◌, length, all, drop, replicate, arith, inl, inr, if◌then◌else◌,
}
use wlog.Base.Int.{pos}
use wlog.Value.{Fields, end, field, null}
use wlog.Audit.Bytes.{Bytes, bytes, index_from, write_at, overlay, at}
use wlog.Audit.Bytes.Writes.{drop-write_at}
use wlog.Audit.Lines.{
  Crypto, Parsed, Marker, Checked, pass, fail, check_line, chain_value, hash_field, is_hex_byte,
  marker_of, signature_field, zeros, no_bytes,
}
use wlog.Audit.Verify.{intact, verify}
use wlog.Audit.Verify.Walks.{no_newline}
use wlog.Audit.Journal.{Codec, Body, Entry, Sealed, event, marker, refused, sealed, seal, Journal}
use wlog.Audit.Journal.Grows.{IsHead, IsClean, CleanMarkers, marker_in}
use wlog.Audit.Journal.Runs.{AllClean, send_all, empty_journal, verify-send_all}
use wlog.Audit.Journal.Seals.{Reads}
use wlog.Audit.Tests.{parity, even, sum}

-- The bytes in front of a quotation mark, and those behind it.
abbrev until : Bytes → Bytes × Bytes
until [] = ([], [])
until (c ∷ b) = let rest = until b in if c == 34 then ([], b) else (c ∷ rest.0, rest.1)

-- Behind the hash and the hash of the line before, a marker has its count as one byte and its head.
abbrev tag : Body → Bytes
tag (event fields) = []
tag (marker n head id) = n ∷ (head ++ 34 ∷ [])

abbrev tag_of : Bytes → Option Marker
tag_of [] = none
tag_of (n ∷ b) = some (record { count = some (pos n); head = some (until b).0; key_id = none })

abbrev decode : Bytes × Bytes → Option Parsed
decode (prev, t) = some (record { prev_hash = some prev; marker = tag_of t })

abbrev text_of : Entry → Bytes
text_of e = bytes "{\"audit.hash\":\"" ++ e.hash ++ 34 ∷ (e.prev_hash ++ 34 ∷ tag e.body)

abbrev chain : Codec
chain = record {
  crypto = record even { parse = λ line. decode (until (drop 1 (drop 64 (drop 15 line)))) };
  marshal = λ e. some (text_of e);
}

-- A head is one of three texts.
module _ (P : Bytes → Type 0) where
  by_parity : (b : Bool) → P (parity true) → P (parity false) → P (parity b)
  by_parity true x y = x
  by_parity false x y = y

  heads : (prev : Bytes) → IsHead chain prev → P [] → P (parity true) → P (parity false) → P prev
  heads prev (inl e) start even_one odd_one = subst P (sym e) start
  heads prev (inr (b, e)) start even_one odd_one =
      subst P (sym e) (by_parity (sum b % 2 == 0) even_one odd_one)

-- What is behind the bytes that are written stays.
drop-written : (new line : Bytes) → drop (length new) (write_at 0 new line) ≡ drop (length new) line
unfolding write_at overlay
drop-written [] line = refl
drop-written (x ∷ new) [] = refl
drop-written (x ∷ new) (c ∷ line) = drop-written new line

abbrev text : Bytes → Body → Bytes
text prev body = text_of (record { body = body; prev_hash = prev; hash = zeros; signature = none })

abbrev read_back : Bytes → Option Parsed
read_back line = decode (until (drop 1 (drop 64 (drop 15 line))))

abbrev stated : Bytes → Body → Parsed
stated prev body = record { prev_hash = some prev; marker = marker_in body }

line_of : Option Bytes → Bytes
line_of none = []
line_of (some line) = line

place_of : Checked (Bytes × ℕ) → ℕ
place_of (fail e) = 0
place_of (pass (value, off)) = off

behind :
    (new line : Bytes)
    → length new ≡ 64
    → drop 64 (drop 15 (write_at 15 new line)) ≡ drop 64 (drop 15 line)
behind new line size =
    ap (drop 64) (drop-write_at 15 15 new line (omega arith))
    ∙ subst (λ n. drop n (write_at 0 new (drop 15 line)) ≡ drop n (drop 15 line)) size
        (drop-written new (drop 15 line))

text-Reads :
    (prev : Bytes) (body : Body)
    → chain_value (text prev body) hash_field ≡ pass (zeros, 15)
    → read_back (text prev body) ≡ some (stated prev body)
    → Reads chain prev body (stated prev body)
unfolding line_of place_of
text-Reads prev body place back line value new h m v size hex =
    let same : text prev body ≡ line = ap line_of m in
    let at_15 : h ≡ 15 =
      sym (ap place_of v)
      ∙ ap (λ l. place_of (chain_value l hash_field)) (sym same)
      ∙ ap place_of place in
    subst (λ l. read_back (write_at h new l) ≡ some (stated prev body)) same
      (subst (λ k. read_back (write_at k new (text prev body)) ≡ some (stated prev body))
        (sym at_15) (ap (λ b. decode (until (drop 1 b))) (behind new (text prev body) size) ∙ back))

line_in : Sealed → Bytes
line_in (refused e) = []
line_in (sealed line hash) = line

-- What is asked of the line that is sealed behind a head.
record Behind (prev : Bytes) (body : Body) : Type 0 where
  place : chain_value (text prev body) hash_field ≡ pass (zeros, 15)
  back : read_back (text prev body) ≡ some (stated prev body)
  unsigned : index_from 0 (marker_of signature_field) (line_in (seal chain none prev body)) ≡ none
  one_line : all no_newline (line_in (seal chain none prev body)) ≡ true

Behind-IsClean :
    (body : Body) → ((prev : Bytes) → IsHead chain prev → Behind prev body) → IsClean chain body
unfolding line_in
Behind-IsClean body b = record {
  reads = λ prev head. text-Reads prev body (b prev head).place (b prev head).back;
  unsigned = λ prev line hash head h.
      subst (λ l. index_from 0 (marker_of signature_field) l ≡ none) (ap line_in h)
        (b prev head).unsigned;
  one_line = λ prev line hash head h.
      subst (λ l. all no_newline l ≡ true) (ap line_in h) (b prev head).one_line;
}

abbrev audit_event : Fields
audit_event = field "audit" null end

event-Behind : (prev : Bytes) → IsHead chain prev → Behind prev (event audit_event)
unfolding wlog.Audit.Lines.no_bytes wlog.Audit.Lines.check_line index_from wlog.Audit.Bytes.contains
    wlog.Audit.Bytes.same_bytes write_at chain_value seal line_in
event-Behind prev head =
    heads (λ p. Behind p (event audit_event)) prev head
      (record { place = refl; back = refl; unsigned = refl; one_line = refl })
      (record { place = refl; back = refl; unsigned = refl; one_line = refl })
      (record { place = refl; back = refl; unsigned = refl; one_line = refl })

abbrev hundred : Bytes → Body
hundred head = marker 100 head none

hundred-Behind :
    (head prev : Bytes) → IsHead chain head → IsHead chain prev → Behind prev (hundred head)
unfolding wlog.Audit.Lines.no_bytes wlog.Audit.Lines.check_line index_from wlog.Audit.Bytes.contains
    wlog.Audit.Bytes.same_bytes write_at chain_value seal line_in
hundred-Behind head prev first second =
    heads (λ h. Behind prev (hundred h)) head first
      (heads (λ p. Behind p (hundred ([]))) prev second
        (record { place = refl; back = refl; unsigned = refl; one_line = refl })
        (record { place = refl; back = refl; unsigned = refl; one_line = refl })
        (record { place = refl; back = refl; unsigned = refl; one_line = refl }))
      (heads (λ p. Behind p (hundred (parity true))) prev second
        (record { place = refl; back = refl; unsigned = refl; one_line = refl })
        (record { place = refl; back = refl; unsigned = refl; one_line = refl })
        (record { place = refl; back = refl; unsigned = refl; one_line = refl }))
      (heads (λ p. Behind p (hundred (parity false))) prev second
        (record { place = refl; back = refl; unsigned = refl; one_line = refl })
        (record { place = refl; back = refl; unsigned = refl; one_line = refl })
        (record { place = refl; back = refl; unsigned = refl; one_line = refl }))

-- The only count of a marker among a hundred events.
one_hundred : (n : ℕ) → 0 < n → n ≤ 100 → n % 100 ≡ 0 → 100 ≡ n
one_hundred n some_events fits whole = omega (arith, whole)

chain_markers :
    (head : Bytes) (n : ℕ) → 100 ≡ n → IsHead chain head → IsClean chain (marker n head none)
chain_markers head n same first =
    subst (λ k. IsClean chain (marker k head none)) same
      (Behind-IsClean (hundred head) (λ prev second. hundred-Behind head prev first second))

abbrev events : ℕ → List Fields
events n = replicate n audit_event

length-events : (n : ℕ) → length (events n) ≡ n
length-events zero = refl
length-events (suc n) = ap suc (length-events n)

all_clean : (n : ℕ) → AllClean chain (events n)
all_clean zero = omega arith
all_clean (suc n) = (Behind-IsClean (event audit_event) event-Behind, all_clean n)

parity-IsDigest : (b : Bool) → (length (parity b) ≡ 64) × (all is_hex_byte (parity b) ≡ true)
parity-IsDigest true = (refl, refl)
parity-IsDigest false = (refl, refl)

chain-CleanMarkers : CleanMarkers chain (length (events 100))
chain-CleanMarkers n head some_events fits whole first =
    chain_markers head n
      (one_hundred n some_events (subst (λ k. n ≤ k) (length-events 100) fits) whole) first

verify-send_all_example :
    let j : Journal = send_all chain (events 100) empty_journal in
    (j.file ≡ []) ⊎ (verify chain.crypto none (some j.file) ≡ intact j.records j.prev)
verify-send_all_example =
    verify-send_all chain (events 100) (λ b. parity-IsDigest (sum b % 2 == 0)) chain-CleanMarkers
      (all_clean 100)
