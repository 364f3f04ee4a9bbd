-- ===== src/Models/Json.antt =====
-- The JSON values of `dict` and `Any` fields (agent/core/models.py): opaque to the core but for the
-- handshake payloads and schemas that it looks into. A number is kept as its text.
use luca_py.Base.{String, Bool, true, false, Option, none, some, if◌then◌else◌}
use text.Mathlib.Text.{◌==◌}

mutual
  pub data Json : Type 0 where
    null : Json
    bool : Bool → Json
    number : String → Json
    string : String → Json
    array : Items → Json
    object : Fields → Json

  pub data Items : Type 0 where
    nil : Items
    cons : Json → Items → Items

  pub data Fields : Type 0 where
    end : Fields
    field : String → Json → Fields → Fields

-- payload.get(key)
unfoldable pub get_field : Fields → String → Option Json
get_field end k = none
get_field (field j v rest) k = if j == k then some v else get_field rest k

-- `value is True`
abbrev pub is_true : Option Json → Bool
is_true (some (bool true)) = true
is_true (some (bool false)) = false
is_true (some null) = false
is_true (some (number n)) = false
is_true (some (string s)) = false
is_true (some (array xs)) = false
is_true (some (object fs)) = false
is_true none = false
