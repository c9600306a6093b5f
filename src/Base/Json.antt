-- ===== src/Base/Json.antt =====
-- What encoding/json decodes into an `interface{}`. A float64 is held as the text of its number. The
-- members of an object are those of a Go map, in the order in which `range` visits them.
use Prim.Native.Nat.{ℕ, suc}
use Prim.Native.String.{String}
use mathlib.Core.Bool.{Bool}
use mathlib.Core.Option.{Option, none, some}
use text.Mathlib.Text.{◌==◌}
use cam_bus.Base.Tests.{if◌then◌else◌}

mutual
  pub data Value : Type 0 where
    nil : Value
    str : String → Value
    float : String → Value
    boolean : Bool → Value
    array : Values → Value
    object : Members → Value

  pub data Values : Type 0 where
    no_values : Values
    value : Value → Values → Values

  pub data Members : Type 0 where
    no_members : Members
    member : String → Value → Members → Members

-- v, ok := m[key]
unfoldable pub find_member : String → Members → Option Value
find_member key no_members = none
find_member key (member k v ms) = let rest = find_member key ms in if k == key then some v else rest

-- v.(string), v.(map[string]interface{}), v.([]interface{})
abbrev pub as_string : Value → Option String
as_string (str s) = some s
as_string _ = none

abbrev pub as_object : Value → Option Members
as_object (object ms) = some ms
as_object _ = none

abbrev pub as_array : Value → Option Values
as_array (array vs) = some vs
as_array _ = none

-- The member, if it is there and a text.
abbrev pub string_or_none : Option Value → Option String
string_or_none none = none
string_or_none (some v) = as_string v

unfoldable pub value_count : Values → ℕ
value_count no_values = 0
value_count (value _ vs) = suc (value_count vs)
