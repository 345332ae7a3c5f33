-- ===== src/Stages/Finalize/Tests.antt =====
-- An event over the size cap, and the theorem applied to it.
use Prim.Native.String.{◌++◌ as then_text}
use wlog.Base.{[], ◌∷◌, ℕ, zero, suc, ◌≡◌, refl, true, some, String}
use wlog.Base.Int.{pos}
use wlog.Value.{Fields, end, field, str, int, go_int, strings, object}
use wlog.Value.Maps.{get, put, delete}
use wlog.Value.Size.{value_size}
use wlog.Stages.Finalize.{
  finalize_size, trim, sorted, insert_sorted, user_sizes, is_reserved_key, with_note,
}
use wlog.Stages.Finalize.Reserved.{finalize_size-reserved}

abbrev doubled : ℕ → String → String
doubled zero s = s
doubled (suc n) s = doubled n (then_text s s)

-- An event with audit records and a text of 2 ^ 19 bytes.
abbrev heavy : Fields
heavy = field "level" (str "debug") (
    field "audit" (str "signed") (
      field "body" (str (doubled 19 "x"))
        (field "wlog" (object (field "schema_version" (int (pos 2)) end)) end)))

abbrev lightened : Fields
lightened = field "level" (str "debug") (
    field "audit" (str "signed") (
      field "wlog"
        (object (
          field "schema_version" (int (pos 2)) (
            field "truncated" (strings ("body" ∷ []))
              (field "dropped_fields" (go_int (pos 1)) end))))
        end))

finalize_size-heavy : finalize_size heavy ≡ some (lightened, true)
unfolding finalize_size trim sorted insert_sorted user_sizes is_reserved_key with_note get put
    delete value_size
finalize_size-heavy = refl

finalize_size-reserved_example : get "audit" lightened ≡ some (str "signed")
unfolding is_reserved_key get
finalize_size-reserved_example =
    finalize_size-reserved heavy lightened true "audit" finalize_size-heavy refl refl
