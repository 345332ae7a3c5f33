-- ===== src/Audit/Journal/Runs.antt =====
-- A journal that is written line by line, on a disk that works, is intact.
use wlog.Base.{
  ℕ, ◌≤◌, ◌+◌, arith, length, ==_iff, suc, ◌%◌, ◌≡◌, ◌⊎◌, refl, ap, sym, subst, ◌∙◌, true, not,
  none, some, List, [], ◌∷◌, if◌then◌else◌, ◌==◌, Bool-cases, inl, inr,
}
use wlog.Value.{Fields}
use wlog.Value.Maps.{has}
use wlog.Audit.Bytes.{Bytes}
use wlog.Audit.Lines.{no_bytes}
use wlog.Audit.Verify.{intact, walk, verify, journal_lines}
use wlog.Audit.Verify.Walks.{unlines, journal_lines-unlines}
use wlog.Audit.Journal.{
  Codec, event, Failure, Journal, resume, Outcome, append, append_marker, counted, send, send_open,
  ensure_open, marker_every,
}
use wlog.Audit.Journal.Seals.{IsDigest}
use wlog.Audit.Journal.Grows.{
  working, IsClean, CleanMarkers, IsWritten, Grew, IsSound, append_event-Grew, append_marker-Grew,
}

module _ (o : Codec) (digests : IsDigest o [] (event Fields.end)) where
  -- What a call makes of a journal: it stays sound, and counts at most that many records.
  abbrev SoundTo : ℕ → Journal → Type 0
  SoundTo n after = IsSound o after × (after.records ≤ n)

  marked-IsSound :
      (j : Journal) (out : Outcome) → IsSound o j → Grew o j j.records out → SoundTo j.records out.0
  marked-IsSound j (after, some e) w same = subst (SoundTo j.records) (sym same) (w, omega arith)
  marked-IsSound j (after, none) w (written, same) =
      (subst (IsWritten o after) (sym same) written, omega (arith, same))

  counted-IsSound :
      (limit : ℕ) (j : Journal) (out : Outcome)
      → CleanMarkers o limit
      → suc j.records ≤ limit
      → IsSound o j
      → Grew o j (suc j.records) out
      → SoundTo (suc j.records) (counted o working out).0
  unfolding counted
  counted-IsSound limit j (after, some e) clean fits w same =
      subst (SoundTo (suc j.records)) (sym same) (w, omega arith)
  counted-IsSound limit j (after, none) clean fits w (written, same) =
      let more : Journal = record after { records = suc after.records } in
      let is_written = subst (λ n. IsWritten o after (suc n)) (sym same) written in
      let sound : IsSound o more = record {
        lines = is_written.lines;
        plain = is_written.plain;
        of_file = is_written.of_file;
        walks = is_written.walks;
        no_key = is_written.no_key;
        opened = is_written.opened;
        heads = is_written.heads;
      } in
      elim (Bool-cases (suc after.records % marker_every == 0)) [
        | inl due ↦
            let clean_now =
              clean (suc after.records) after.prev (omega arith) (omega (arith, same, fits))
                ((==_iff (suc after.records % 100) 0).0 due) is_written.heads in
            let (kept, bound) =
              marked-IsSound more (append_marker o working more) sound
                (append_marker-Grew o digests more clean_now sound) in
            rw due (kept, omega (arith, bound, same))
        | inr between ↦ rw between (sound, omega (arith, same))
      ]

  send-IsSound :
      (limit : ℕ) (fields : Fields) (j : Journal)
      → CleanMarkers o limit
      → suc j.records ≤ limit
      → IsClean o (event fields)
      → IsSound o j
      → SoundTo (suc j.records) (send o working working fields j).0
  unfolding send send_open ensure_open
  send-IsSound limit fields j clean_markers fits clean w = elim (Bool-cases (has "audit" fields)) [
    | inl audit ↦
        let kept : ensure_open o working j ≡ (j, none) =
          ap
            (λ b.
              if b
              then (j, none)
              else if not working.opens
              then (j, some Failure.cannot_open)
              else resume o.crypto working j)
            w.opened in
        rw (audit, kept)
          (counted-IsSound limit j (append o working (event fields) j) clean_markers fits w
            (append_event-Grew o digests fields j clean w))
    | inr other ↦ rw other (w, omega arith)
  ]

-- The journal after some events, on a disk that works.
pub send_all : Codec → List Fields → Journal → Journal
send_all o [] j = j
send_all o (e ∷ events) j = send_all o events (send o working working e j).0

abbrev pub AllClean : Codec → List Fields → Type 0
AllClean o [] = 0 ≤ 0
AllClean o (e ∷ events) = IsClean o (event e) × AllClean o events

-- A journal that is open and holds nothing.
abbrev pub empty_journal : Journal
empty_journal = record {
  file = [];
  partial_file = [];
  is_open = true;
  prev = [];
  records = 0;
  key = none;
}

send_all-IsSound :
    (o : Codec) (limit : ℕ) (events : List Fields) (j : Journal)
    → IsDigest o [] (event Fields.end)
    → CleanMarkers o limit
    → j.records + length events ≤ limit
    → AllClean o events
    → IsSound o j
    → IsSound o (send_all o events j)
unfolding send_all
send_all-IsSound o limit [] j digests markers fits clean w = w
send_all-IsSound o limit (e ∷ events) j digests markers fits (now, later) w =
    let (sound, bound) = send-IsSound o digests limit e j markers (omega (arith, fits)) now w in
    send_all-IsSound o limit events (send o working working e j).0 digests markers
      (omega (arith, fits, bound)) later sound

no_bytes-nil : (b : Bytes) → no_bytes b ≡ true → b ≡ []
unfolding no_bytes
no_bytes-nil [] e = refl
no_bytes-nil (c ∷ b) e = cc e

verify-IsSound :
    (o : Codec) (j : Journal)
    → IsSound o j
    → (j.file ≡ []) ⊎ (verify o.crypto none (some j.file) ≡ intact j.records j.prev)
unfolding verify
verify-IsSound o j w = elim (Bool-cases (no_bytes j.file)) [
  | inl empty ↦ inl (no_bytes-nil j.file empty)
  | inr full ↦
      let lines : journal_lines j.file ≡ w.lines =
        ap journal_lines w.of_file ∙ journal_lines-unlines w.lines w.plain in
      inr (rw (full, lines) w.walks)
]

empty_journal-IsSound : (o : Codec) → IsSound o empty_journal
unfolding unlines walk
empty_journal-IsSound o = record {
  lines = [];
  plain = refl;
  of_file = refl;
  walks = refl;
  no_key = refl;
  opened = refl;
  heads = inl refl;
}

-- On a disk that works, a journal without a key that starts empty and gets any events, some of which
-- may fail to encode, has an empty file or one that Verify finds intact, with as many records as it
-- counts and its head, the markers between them included. SHA-256 in hex gives 64 hex digits. Of the
-- events, and of the markers that they may lead to, whose counts are hundreds up to the number of the
-- events and whose heads are digests, JSON writes a line without a newline and without a signature
-- field, and reads from it, with any hash in it, the marker and the hash of the line before, nothing or
-- a digest, that were written.
pub verify-send_all :
    (o : Codec) (events : List Fields)
    → IsDigest o [] (event Fields.end)
    → CleanMarkers o (length events)
    → AllClean o events
    → let j : Journal = send_all o events empty_journal in
      (j.file ≡ []) ⊎ (verify o.crypto none (some j.file) ≡ intact j.records j.prev)
verify-send_all o events digests markers clean =
    verify-IsSound o (send_all o events empty_journal) (
      send_all-IsSound o (length events) events empty_journal digests markers (omega arith) clean
        (empty_journal-IsSound o))
