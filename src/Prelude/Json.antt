-- ===== src/Prelude/Json.antt =====
-- What `json.loads` returns. A float is kept as its integer part, whether it has no fraction, and
-- its text: the source compares floats with integers, converts them and prints them. The floats
-- that are not finite are left out.
use Prim.Native.String.{String}
use mathlib.Core.Bool.{Bool, true, false, ◌&&◌}
use mathlib.Core.List.{List, [], ◌∷◌}
use mathlib.Core.Option.{Option, none, some}
use mcp_log_server.Prelude.Tests.{if◌then◌else◌}
use mcp_log_server.Prelude.Equality.{◌==◌, string_eq}
use mcp_log_server.Prelude.Int.{ℤ, pos, int_eq}

mutual
  pub data Json : Type 0 where
    null : Json
    bool : Bool → Json
    int : ℤ → Json
    float : ℤ → Bool → String → Json
    str : String → Json
    arr : Items → Json
    obj : Fields → Json

  pub data Items : Type 0 where
    nil : Items
    cons : Json → Items → Items

  pub data Fields : Type 0 where
    end : Fields
    field : String → Json → Fields → Fields

-- `payload.get(key)`, and `key in payload` by the result.
abbrev pub get : Fields → String → Option Json
get end key = none
get (field k v rest) key = if k == key then some v else get rest key

abbrev pub field_names : Fields → List String
field_names end = []
field_names (field k v rest) = k ∷ field_names rest

abbrev pub items : Items → List Json
items nil = []
items (cons j rest) = j ∷ items rest

-- `payload.get(key)` with Python's `None` for a missing key.
abbrev pub get_or_null : Fields → String → Json
get_or_null fields key = elim (get fields key) [ none ↦ null | some v ↦ v ]

abbrev pub bool_int : Bool → ℤ
bool_int true = pos 1
bool_int false = pos 0

-- `value == z`: in Python `True == 1` and `1.0 == 1`.
abbrev pub equals_int : Json → ℤ → Bool
equals_int (bool b) z = bool_int b == z
equals_int (int n) z = n == z
equals_int (float n whole text) z = whole && n == z
equals_int _ z = false
