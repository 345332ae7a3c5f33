-- ===== src/Stages/Finalize.antt =====
-- finalizeSize of stages.go: an event over the size cap loses its largest user fields.
pub mod Reserved
mod Tests
use Prim.Native.Nat.{Ordering}
use Prim.Native.String.{len, compare}
use wlog.Base.{
  ℕ, ◌+◌, ◌-◌, ◌≤◌, ◌≡◌, refl, ap, sym, ◌∙◌, Bool, true, false, not, ◌&&◌, ◌||◌, Option, none, some,
  List, [], ◌∷◌, String, str_eq, if◌then◌else◌, leb, ltb, any, Bool-cases, inl, inr, arith, length,
  eq_iff,
}
use wlog.Base.Int.{ℤ, pos, add_to}
use wlog.Value.{Value, Fields, end, field, go_int, object, strings}
use wlog.Value.Maps.{get, put, delete, as_object}
use wlog.Value.Size.{value_size, fields_size}
use wlog.Event.{max_event_size}

abbrev reserved_key_order : List String
reserved_key_order =
    "timestamp" ∷ "level" ∷ "summary" ∷ "operation" ∷ "kind" ∷ "outcome" ∷ "duration_ms" ∷ "message"
    ∷ "error" ∷ "event_id" ∷ "service" ∷ "trace" ∷ "http" ∷ "rpc" ∷ "messaging" ∷ "job" ∷ "cli"
    ∷ "faas" ∷ "user" ∷ "geo" ∷ "client" ∷ "host" ∷ "deploy" ∷ "llm" ∷ "audit" ∷ "errors" ∷ "logs"
    ∷ "calls" ∷ "call_stats" ∷ "feature_flags" ∷ "wlog" ∷ []

unfoldable pub is_reserved_key : String → Bool
is_reserved_key key = any (λ name. str_eq name key) reserved_key_order

-- The user keys with their sizes.
unfoldable pub user_sizes : Fields → List (String × ℕ)
user_sizes end = []
user_sizes (field k v m) =
    let rest = user_sizes m in
    if is_reserved_key k then rest else (k, len k + 8 + value_size v) ∷ rest

is_less : Ordering → Bool
is_less Ordering.lt = true
is_less _ = false

-- The larger one comes first, and of two of one size the one whose name comes first.
before : String × ℕ → String × ℕ → Bool
unfolding is_less
before (k, m) (j, n) = ltb n m || (leb n m && is_less (compare k j))

insert_sorted : String × ℕ → List (String × ℕ) → List (String × ℕ)
insert_sorted x [] = x ∷ []
insert_sorted x (y ∷ ys) =
    let rest = insert_sorted x ys in if before x y then x ∷ y ∷ ys else y ∷ rest

pub sorted : List (String × ℕ) → List (String × ℕ)
sorted [] = []
sorted (x ∷ xs) = insert_sorted x (sorted xs)

pub record Trim : Type 0 where
  pub total : ℕ
  pub out : Fields
  pub truncated : List String

-- The loop: it stops at the first key before which the event fits.
pub trim : List (String × ℕ) → Trim → Trim
trim [] t = t
trim ((k, n) ∷ rest) t =
    let cut =
      trim rest
        (record { total = t.total - n; out = delete k t.out; truncated = k ∷ t.truncated }) in
    if leb t.total max_event_size then t else cut

-- `truncated` holds the newest key first.
names : List String → List String → List String
names [] xs = xs
names (k ∷ ks) xs = names ks (k ∷ xs)

count_in : Option Value → ℕ → ℤ
unfolding add_to
count_in (some (go_int m)) n = add_to n m
count_in _ n = pos n

with_note : List String → Fields → Fields
unfolding names count_in
with_note ks wlog_fields =
    put "dropped_fields" (go_int (count_in (get "dropped_fields" wlog_fields) (length ks)))
      (put "truncated" (strings (names ks [])) wlog_fields)

noted : List String → Option Fields → Fields → Fields
noted ks none out = out
noted ks (some wlog_fields) out = put "wlog" (object (with_note ks wlog_fields)) out

note : List String → Fields → Fields
unfolding noted
note ks out = noted ks (as_object (get "wlog" out)) out

-- None when the reserved groups alone are over the cap; otherwise the event, and whether a field
-- was dropped.
trimmed : Trim → Option (Fields × Bool)
unfolding note
trimmed t =
    if leb t.total max_event_size
    then (if leb (length t.truncated) 0
        then some (t.out, false)
        else some (note t.truncated t.out, true))
    else none

pub finalize_size : Fields → Option (Fields × Bool)
unfolding trimmed
finalize_size out =
    if leb (fields_size out) max_event_size
    then some (out, false)
    else trimmed (
        trim (sorted (user_sizes out))
          (record { total = fields_size out; out = out; truncated = [] }))
