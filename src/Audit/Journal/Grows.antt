-- ===== src/Audit/Journal/Grows.antt =====
-- What a line more does to a journal without a key, on a disk that works.
use wlog.Base.{
  ℕ, ◌≤◌, ◌<◌, suc, ◌%◌, ◌≡◌, ◌⊎◌, refl, ap, sym, subst, ◌∙◌, true, Option, none, some, List, [],
  ◌∷◌, ◌++◌, all, inr,
}
use wlog.Base.Int.{pos}
use wlog.Value.{Fields}
use wlog.Audit.Bytes.{Bytes, index_from}
use wlog.Audit.Lines.{Marker, pass, check_line, signature_field, marker_of}
use wlog.Audit.Verify.{intact, walk}
use wlog.Audit.Verify.Walks.{
  no_newline, unlines, all_lines, unlines_append, all_lines_append, walk-record, walk-marker,
}
use wlog.Audit.Journal.{
  Codec, Body, event, marker, Sealed, sealed, refused, seal, Journal, Disk, Outcome, append,
  append_sealed, append_marker, key_id_of,
}
use wlog.Audit.Journal.Seals.{IsDigest, Reads, seal-check_line, seal-IsDigestOf}

abbrev pub working : Disk
working = record {
  opens = true;
  reads = true;
  aside = λ tail. tail;
  sets_aside = true;
  truncates = true;
  reaches = λ line. line;
  writes = true;
  syncs = true;
}

abbrev pub marker_in : Body → Option Marker
marker_in (event fields) = none
marker_in (marker n head id) = some (record { count = some (pos n); head = some head; key_id = id })

-- A head of a chain: nothing, or a digest.
abbrev pub IsHead : Codec → Bytes → Type 0
IsHead o prev = (prev ≡ []) ⊎ ((b : Bytes) × (prev ≡ o.crypto.digest b))

-- A body whose lines JSON reads back, on one line and without a signature field, behind any head.
pub record IsClean (o : Codec) (body : Body) : Type 0 where
  pub reads :
      (prev : Bytes)
      → IsHead o prev
      → Reads o prev body (record { prev_hash = some prev; marker = marker_in body })
  pub unsigned :
      (prev line hash : Bytes)
      → IsHead o prev
      → seal o none prev body ≡ sealed line hash
      → index_from 0 (marker_of signature_field) line ≡ none
  pub one_line :
      (prev line hash : Bytes)
      → IsHead o prev
      → seal o none prev body ≡ sealed line hash
      → all no_newline line ≡ true

-- The markers that a journal of at most that many events writes.
abbrev pub CleanMarkers : Codec → ℕ → Type 0
CleanMarkers o events =
    (n : ℕ) (head : Bytes)
    → 0 < n
    → n ≤ events
    → n % 100 ≡ 0
    → IsHead o head
    → IsClean o (marker n head none)

-- A journal without a key whose file is lines that the walk finds intact, with a number of records.
pub record IsWritten (o : Codec) (j : Journal) (n : ℕ) : Type 0 where
  pub lines : List Bytes
  pub plain : all_lines lines ≡ true
  pub of_file : j.file ≡ unlines lines
  pub walks : walk o.crypto none lines 0 0 [] ≡ intact n j.prev
  pub no_key : j.key ≡ none
  pub opened : j.is_open ≡ true
  pub heads : IsHead o j.prev

-- A call leaves the journal as it was, or with a line more.
abbrev pub Grew : Codec → Journal → ℕ → Outcome → Type 0
Grew o j n (after, some e) = after ≡ j
Grew o j n (after, none) = IsWritten o after n × (after.records ≡ j.records)

append_sealed-Grew :
    (o : Codec) (j : Journal) (n m : ℕ) (s : Sealed)
    → IsWritten o j n
    → ((line hash : Bytes) → s ≡ sealed line hash → IsHead o hash)
    → ((line hash : Bytes) → s ≡ sealed line hash → all no_newline line ≡ true)
    → ((line hash : Bytes) (ls : List Bytes)
        → s ≡ sealed line hash
        → walk o.crypto none ls 0 0 [] ≡ intact n j.prev
        → walk o.crypto none (ls ++ line ∷ []) 0 0 [] ≡ intact m hash)
    → Grew o j m (append_sealed working j s)
unfolding append_sealed
append_sealed-Grew o j n m (refused e) w heads plain walks = refl
append_sealed-Grew o j n m (sealed line hash) w heads plain walks = (
  record {
    lines = w.lines ++ line ∷ [];
    plain = all_lines_append w.lines line w.plain (plain line hash refl);
    of_file = ap (λ f. f ++ (line ++ 10 ∷ [])) w.of_file ∙ sym (unlines_append w.lines line);
    walks = walks line hash w.lines refl w.walks;
    no_key = w.no_key;
    opened = w.opened;
    heads = heads line hash refl;
  },
  refl,
)

-- The journal of which the walk counts what it counts itself.
abbrev pub IsSound : Codec → Journal → Type 0
IsSound o j = IsWritten o j j.records

module _ (o : Codec) (digests : IsDigest o [] (event Fields.end)) where
  sealed_checks :
      (body : Body) (prev line hash : Bytes)
      → IsHead o prev
      → IsClean o body
      → seal o none prev body ≡ sealed line hash
      → check_line o.crypto line prev none ≡ pass (hash, marker_in body)
  sealed_checks body prev line hash head clean h =
      seal-check_line o prev body (record { prev_hash = some prev; marker = marker_in body }) line
        hash digests (clean.reads prev head) refl h (clean.unsigned prev line hash head h)

  pub append_event-Grew :
      (fields : Fields) (j : Journal)
      → IsClean o (event fields)
      → IsSound o j
      → Grew o j (suc j.records) (append o working (event fields) j)
  unfolding append
  append_event-Grew fields j clean w =
      subst
        (λ k. Grew o j (suc j.records) (append_sealed working j (seal o k j.prev (event fields))))
        (sym w.no_key)
        (append_sealed-Grew o j j.records (suc j.records) (seal o none j.prev (event fields)) w
          (λ line hash h. inr (seal-IsDigestOf o j.prev (event fields) line hash h))
          (λ line hash h. clean.one_line j.prev line hash w.heads h)
          (λ line hash ls h walks.
            walk-record o.crypto none ls line j.prev hash j.records
              (sealed_checks (event fields) j.prev line hash w.heads clean h) walks))

  pub append_marker-Grew :
      (j : Journal)
      → IsClean o (marker j.records j.prev none)
      → IsSound o j
      → Grew o j j.records (append_marker o working j)
  unfolding append_marker append key_id_of
  append_marker-Grew j clean w =
      subst
        (λ k. Grew o j j.records (
          append_sealed working j
            (seal o k j.prev (marker j.records j.prev (key_id_of o.crypto k)))))
        (sym w.no_key)
        (append_sealed-Grew o j j.records j.records
          (seal o none j.prev (marker j.records j.prev none)) w
          (λ line hash h. inr (seal-IsDigestOf o j.prev (marker j.records j.prev none) line hash h))
          (λ line hash h. clean.one_line j.prev line hash w.heads h)
          (λ line hash ls h walks.
            walk-marker o.crypto ls line j.prev hash j.records
              (sealed_checks (marker j.records j.prev none) j.prev line hash w.heads clean h)
              walks))
