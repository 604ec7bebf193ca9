-- ===== src/Prelude/Json.antt =====
-- JSON values as Python decodes them. A dict keeps its keys in the order of insertion.
use Prim.Native.Nat.{ℕ}
use Prim.Native.String.{String}
use mathlib.Core.Bool.{Bool, true, false, not, ◌||◌}
use mathlib.Core.Option.{Option, none, some}
use text.Mathlib.Text.{◌==◌}
use lemonbot.Prelude.Tests.{if◌then◌else◌, eqb}

-- `negative n` is the integer -(n + 1); a float is given by its `repr`.
mutual
  pub data Json : Type 0 where
    null : Json
    bool : Bool → Json
    int negative : ℕ → Json
    float : String → Json
    str : String → Json
    array : Items → Json
    object : Fields → Json

  pub data Items : Type 0 where
    nil : Items
    cons : Json → Items → Items

  pub data Fields : Type 0 where
    end : Fields
    field : String → Json → Fields → Fields

-- `d.get(key)`, where `none` is Python's `None` for a key that is missing.
abbrev pub get : Fields → String → Option Json
get end key = none
get (field k v fs) key = if k == key then some v else get fs key

-- `bool(value)`
abbrev pub truthy : Json → Bool
truthy null = false
truthy (bool b) = b
truthy (int n) = not (eqb n 0)
truthy (negative n) = true
truthy (float s) = not (s == "0.0" || s == "-0.0")
truthy (str s) = not (s == "")
truthy (array nil) = false
truthy (array (cons x xs)) = true
truthy (object end) = false
truthy (object (field k v fs)) = true

-- `bool(d.get(key, False))`
abbrev pub get_flag : Fields → String → Bool
get_flag d key = elim (get d key) [ none ↦ false | some v ↦ truthy v ]
