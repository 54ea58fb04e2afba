-- ===== src/Common/Values.antt =====
-- JSON values, as `json.loads` returns them and `json.dumps` takes them.
use Prim.Native.Nat.{ℕ}
use Prim.Native.String.{String}
use mathlib.Core.Bool.{Bool, true, false}
use mathlib.Core.Option.{Option, none, some}
use text.Mathlib.Text.{◌==◌ as str_eq}
use cks_simulator.Common.Tests.{if◌then◌else◌}

-- `negative n` is -(n + 1), and `hundredths n` the float n / 100.
mutual
  pub data Json : Type 0 where
    null : Json
    bool : Bool → Json
    int : ℕ → Json
    negative : ℕ → Json
    hundredths : ℕ → Json
    str : String → Json
    arr : Items → Json
    obj : Fields → Json

  pub data Items : Type 0 where
    nil : Items
    cons : Json → Items → Items

  pub data Fields : Type 0 where
    end : Fields
    field : String → Json → Fields → Fields

-- `payload.get(key)`
unfoldable pub get_field : String → Fields → Option Json
get_field k end = none
get_field k (field j v fs) = if str_eq k j then some v else get_field k fs

-- `not payload`
abbrev pub no_fields : Fields → Bool
no_fields end = true
no_fields (field _ _ _) = false
