-- ===== src/Value.antt =====
-- value.go: the tree of values that an event owns, and the Go maps and slices in it.
-- A float is its bit pattern: no float is computed with. `strings` and `string_map` are the typed
-- `[]string` and `map[string]string`, `int` is an int64 and `go_int` an int, and `other` stands for a value of any type besides.
pub mod Maps
pub mod Size
use wlog.Base.{ℕ, String, Bool, List}
use wlog.Base.Int.{ℤ}

mutual
  pub data Value : Type 0 where
    null : Value
    bool : Bool → Value
    str : String → Value
    int : ℤ → Value
    go_int : ℤ → Value
    uint : ℕ → Value
    float : ℕ → Value
    number : String → Value
    object : Fields → Value
    array : Items → Value
    strings : List String → Value
    string_map : List (String × String) → Value
    other : ℕ → Value

  pub data Items : Type 0 where
    nil : Items
    cons : Value → Items → Items

  -- A `map[string]any`: a key has at most one entry.
  pub data Fields : Type 0 where
    end : Fields
    field : String → Value → Fields → Fields
