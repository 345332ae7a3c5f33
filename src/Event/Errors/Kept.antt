-- ===== src/Event/Errors/Kept.antt =====
-- What a run of recorded errors leaves on an event.
use wlog.Base.{
  ℕ, zero, suc, ◌+◌, ◌-◌, ◌≡◌, refl, ◌∙◌, sym, ap, append_assoc, append-nil, map, String, Bool,
  Option, none, some, List, [], ◌∷◌, ◌++◌, leb, if◌then◌else◌, length, length-append, length-take,
  arith, take,
}
use wlog.Event.{Event, ErrorInfo, max_error_list}
use wlog.Event.Errors.{ErrorCall, error_level, shelve, record_error, record_errors}

-- The last of a run of errors, and those before it, oldest first.
abbrev pub latest : ErrorInfo → List ErrorInfo → ErrorInfo
latest x [] = x
latest x (y ∷ ys) = latest y ys

abbrev pub earlier : ErrorInfo → List ErrorInfo → List ErrorInfo
earlier x [] = []
earlier x (y ∷ ys) = x ∷ earlier y ys

take-nil : (k : ℕ) → take {A = ErrorInfo} k [] ≡ []
take-nil zero = refl
take-nil (suc k) = refl

take-snoc :
    (n : ℕ) (xs : List ErrorInfo) (x : ErrorInfo)
    → take n (xs ++ x ∷ [])
      ≡ (if leb n (length (take n xs)) then take n xs else take n xs ++ x ∷ [])
take-snoc zero xs x = refl
take-snoc (suc n) [] x = ground (arith, take-nil n)
take-snoc (suc n) (y ∷ ys) x = rw (take-snoc n ys x) (ground arith)

shelve-nothing : (e : Event) → (shelve none e).err_list ≡ e.err_list
unfolding shelve
shelve-nothing e = refl

module _ (on : Bool) where
  -- `callerOf` marks the place of the call where the event asks for it.
  abbrev pub stamp : ErrorCall → ErrorInfo
  stamp (line, info) = if on then record info { caller = line } else info

  -- The event holds `x` as its error, and of the errors before it the first that fit.
  record Tracks (e : Event) (before : List ErrorInfo) (x : ErrorInfo) : Type 0 where
    now : e.err_info ≡ some x
    list : e.err_list ≡ take max_error_list before
    calls : e.caller ≡ on

  caller-record_error :
      (line : String) (y : ErrorInfo) (e : Event) → (record_error line y e).caller ≡ e.caller
  unfolding record_error
  caller-record_error line y e = caller-shelve e.err_info
    where
      caller-shelve : (o : Option ErrorInfo) → (shelve o e).caller ≡ e.caller
      caller-shelve none = refl
      caller-shelve (some x) = ground arith

  shelve-list :
      (e : Event) (x : ErrorInfo)
      → (shelve (some x) e).err_list
        ≡ (if leb max_error_list (length e.err_list) then e.err_list else e.err_list ++ x ∷ [])
  unfolding shelve
  shelve-list e x = ground arith

  shelve_tracks :
      (e : Event) (before : List ErrorInfo) (x : ErrorInfo)
      → e.err_list ≡ take max_error_list before
      → (shelve (some x) e).err_list ≡ take max_error_list (before ++ x ∷ [])
  shelve_tracks e before x h = shelve-list e x ∙ rw h (sym (take-snoc max_error_list before x))

  Tracks-record_error :
      (e : Event) (before : List ErrorInfo) (x : ErrorInfo) (line : String) (y : ErrorInfo)
      → Tracks e before x
      → Tracks (record_error line y e) (before ++ x ∷ []) (stamp (line, y))
  unfolding record_error
  Tracks-record_error e before x line y t = record {
    now = rw t.calls;
    list =
        ap (λ (o : Option ErrorInfo). (shelve o e).err_list) t.now
        ∙ shelve_tracks e before x t.list;
    calls = caller-record_error line y e ∙ t.calls;
  }

  Tracks-record_errors :
      (e : Event) (before : List ErrorInfo) (x : ErrorInfo) (ys : List ErrorCall)
      → Tracks e before x
      → Tracks (record_errors ys e) (before ++ earlier x (map stamp ys)) (latest x (map stamp ys))
  unfolding record_errors
  Tracks-record_errors e before x [] t = rw (append-nil before) t
  Tracks-record_errors e before x ((line, y) ∷ ys) t =
      rw (← append_assoc before (x ∷ []) (earlier (stamp (line, y)) (map stamp ys))) (
        Tracks-record_errors (record_error line y e) (before ++ x ∷ []) (stamp (line, y)) ys
          (Tracks-record_error e before x line y t))

first :
    (line : String) (x : ErrorInfo) (e : Event)
    → e.err_info ≡ none
    → e.err_list ≡ []
    → Tracks e.caller (record_error line x e) [] (stamp e.caller (line, x))
unfolding record_error
first line x e fresh empty = record {
  now = refl;
  list = ap (λ (o : Option ErrorInfo). (shelve o e).err_list) fresh ∙ shelve-nothing e ∙ empty;
  calls = caller-record_error e.caller line x e;
}

-- An event with no error and no error list that records one or more errors holds the last of them as
-- its error, and as its list the first ten of those before it, oldest first, each marked with the place
-- of its own call when the event asks for it.
pub record_errors_kept :
    (x : ErrorCall) (ys : List ErrorCall) (e : Event)
    → e.err_info ≡ none
    → e.err_list ≡ []
    → let all : List ErrorInfo = map (stamp e.caller) ys in
      ((record_errors (x ∷ ys) e).err_info ≡ some (latest (stamp e.caller x) all))
      × ((record_errors (x ∷ ys) e).err_list ≡ take 10 (earlier (stamp e.caller x) all))
unfolding record_errors
record_errors_kept (line, x) ys e fresh empty =
    let t =
      Tracks-record_errors e.caller (record_error line x e) [] (stamp e.caller (line, x)) ys
        (first line x e fresh empty) in
    (t.now, t.list)

length-earlier : (x : ErrorInfo) (ys : List ErrorInfo) → length (earlier x ys) ≡ length ys
length-earlier x [] = refl
length-earlier x (y ∷ ys) = ap suc (length-earlier y ys)

shelve_counts :
    (x : ErrorInfo) (e : Event)
    → (shelve (some x) e).dropped + length (shelve (some x) e).err_list
      ≡ e.dropped + length e.err_list + 1
unfolding shelve
shelve_counts x e = ground (arith, length-append e.err_list (x ∷ []))

record_errors_counts :
    (x : ErrorInfo) (ys : List ErrorCall) (e : Event)
    → e.err_info ≡ some x
    → (record_errors ys e).dropped + length (record_errors ys e).err_list
      ≡ e.dropped + length e.err_list + length ys
unfolding record_errors record_error
record_errors_counts x [] e h = omega arith
record_errors_counts x ((line, y) ∷ ys) e h =
    let one : (record_error line y e).dropped + length (record_error line y e).err_list
        ≡ e.dropped + length e.err_list + 1 =
      ap (λ (o : Option ErrorInfo). (shelve o e).dropped + length (shelve o e).err_list) h
      ∙ shelve_counts x e in
    omega (arith, record_errors_counts _ ys (record_error line y e) refl)

length-map-stamp : (on : Bool) (ys : List ErrorCall) → length (map (stamp on) ys) ≡ length ys
length-map-stamp on [] = refl
length-map-stamp on (y ∷ ys) = ap suc (length-map-stamp on ys)

dropped-first :
    (line : String) (x : ErrorInfo) (e : Event)
    → e.err_info ≡ none
    → (record_error line x e).dropped ≡ e.dropped
unfolding record_error shelve
dropped-first line x e fresh = rw fresh

-- A fresh event counts each error that it could not list as a dropped field.
pub dropped-record_errors :
    (x : ErrorCall) (ys : List ErrorCall) (e : Event)
    → e.err_info ≡ none
    → e.err_list ≡ []
    → (record_errors (x ∷ ys) e).dropped ≡ e.dropped + (length ys - max_error_list)
unfolding record_errors
dropped-record_errors (line, x) ys e fresh empty =
    let t = first line x e fresh empty in
    let all = earlier (stamp e.caller (line, x)) (map (stamp e.caller) ys) in
    omega (
      arith,
      record_errors_counts (stamp e.caller (line, x)) ys (record_error line x e) t.now,
      ap length t.list,
      ap length (record_errors_kept (line, x) ys e fresh empty).1,
      length-take max_error_list all,
      length-earlier (stamp e.caller (line, x)) (map (stamp e.caller) ys),
      length-map-stamp e.caller ys,
      dropped-first line x e fresh,
    )

level-record_error :
    (line : String) (x : ErrorInfo) (e : Event)
    → ((record_error line x e).level_set ≡ e.level_set)
      × ((record_error line x e).level ≡ (if e.level_set then e.level else error_level))
unfolding record_error
level-record_error line x e = (level_set-shelve e.err_info, refl)
  where
    level_set-shelve : (o : Option ErrorInfo) → (shelve o e).level_set ≡ e.level_set
    level_set-shelve none = unfold shelve in refl
    level_set-shelve (some y) = unfold shelve in (ground arith)

-- Any errors leave an explicit level as it is, and otherwise set the level to error.
pub level-record_errors :
    (x : ErrorCall) (ys : List ErrorCall) (e : Event)
    → (record_errors (x ∷ ys) e).level ≡ (if e.level_set then e.level else error_level)
unfolding record_errors
level-record_errors (line, x) [] e = (level-record_error line x e).1
level-record_errors (line, x) (y ∷ ys) e =
    let (kept, now) = level-record_error line x e in
    level-record_errors y ys (record_error line x e) ∙ rw (kept, now) (ground arith)
