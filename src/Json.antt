-- ===== src/Json.antt =====
-- JSON values as encoding/json decodes them into `any`: an object is its entries with the last of
-- equal keys, and a number keeps its text. The decoder itself, of the standard library, is a
-- parameter wherever the program calls it.
use nvidia_api_gateway.Prelude.{Option, none, some, Bool, if◌then◌else◌}
use nvidia_api_gateway.Prelude.Text.{Text, text_eq}

mutual
  pub data Value : Type 0 where
    null : Value
    bool : Bool → Value
    num : Text → Value
    str : Text → Value
    arr : Items → Value
    obj : Fields → Value

  pub data Items : Type 0 where
    nil : Items
    cons : Value → Items → Items

  pub data Fields : Type 0 where
    end : Fields
    field : Text → Value → Fields → Fields

-- payload[key]; a missing key reads as nil
unfoldable pub member : Text → Fields → Option Value
member key end = none
member key (field k v fs) = if text_eq k key then some v else member key fs

unfoldable pub member_or_nil : Text → Fields → Value
member_or_nil key end = null
member_or_nil key (field k v fs) = if text_eq k key then v else member_or_nil key fs

-- The target map after json.Unmarshal into a map[string]any: null leaves it nil, and any other value
-- that is no object is an error.
unfoldable pub as_object : Option Value → Option Fields
as_object none = none
as_object (some null) = some end
as_object (some (obj fs)) = some fs
as_object (some (bool b)) = none
as_object (some (num n)) = none
as_object (some (str s)) = none
as_object (some (arr xs)) = none
