-- ===== src/Base/Json.antt =====
-- JSON values as `encoding/json` hands them out in an `any`. A number is kept as its text. An
-- object is a Go map: its order means nothing, and a set replaces what stands under the name.
use mathlib.Core.Bool.{Bool, false}
use mathlib.Core.Option.{Option, none, some}
use mathlib.Core.List.{List, [], ◌∷◌}
use mirasim2api.Base.Tests.{Str, ◌==◌, text_key, if◌then◌else◌}

mutual
  pub data Json : Type 0 where
    null : Json
    bool : Bool → Json
    number : Str → Json
    string : Str → Json
    array : Items → Json
    object : Fields → Json

  pub data Items : Type 0 where
    no_items : Items
    item : Json → Items → Items

  pub data Fields : Type 0 where
    no_fields : Fields
    field : Str → Json → Fields → Fields

-- `m[name]`, with its second result.
unfoldable pub field_of : Str → Fields → Option Json
field_of name no_fields = none
field_of name (field n v fs) = if n == name then some v else field_of name fs

-- `m[name] = v`
unfoldable pub set_field : Str → Json → Fields → Fields
set_field name v no_fields = field name v no_fields
set_field name v (field n w fs) =
    if n == name then field name v fs else field n w (set_field name v fs)

-- `delete(m, name)`
unfoldable pub delete_field : Str → Fields → Fields
delete_field name no_fields = no_fields
delete_field name (field n w fs) =
    if n == name then delete_field name fs else field n w (delete_field name fs)

-- `v.(string)` without its second result, where nil and a missing field are no string.
unfoldable pub text_of : Option Json → Str
text_of (some (string s)) = s
text_of _ = []

-- `v.(bool)` likewise.
unfoldable pub flag_of : Option Json → Bool
flag_of (some (bool b)) = b
flag_of _ = false

unfoldable pub items_of : List Json → Items
items_of [] = no_items
items_of (v ∷ vs) = item v (items_of vs)

unfoldable pub list_of : Items → List Json
list_of no_items = []
list_of (item v vs) = v ∷ list_of vs
