-- ===== src/Json.antt =====
-- The values that encoding/json decodes into `any`, and the type assertions and map reads by which
-- the code takes them apart. An object lists each name once, as a Go map does. A number keeps the
-- text that it was written with.
use clipal.Common.{Bool, if◌then◌else◌, Option, none, some, [], Text, eq_text}

mutual
  pub data Value : Type 0 where
    null : Value
    boolean : Bool → Value
    number : Text → Value
    str : Text → Value
    arr : Items → Value
    obj : Fields → Value

  pub data Items : Type 0 where
    nil : Items
    cons : Value → Items → Items

  pub data Fields : Type 0 where
    no_fields : Fields
    field : Text → Value → Fields → Fields

-- root[key], where a missing key reads as nil.
unfoldable pub get : Fields → Text → Value
get no_fields key = null
get (field k v fs) key = if eq_text k key then v else get fs key

-- v.(map[string]any)
abbrev pub as_object : Value → Option Fields
as_object (obj fs) = some fs
as_object _ = none

-- v.(string)
abbrev pub as_string : Value → Option Text
as_string (str s) = some s
as_string _ = none

-- `if s, ok := v.(string); ok { text = s }`, from an empty `text`.
abbrev pub string_from_any : Value → Text
string_from_any (str s) = s
string_from_any _ = []

abbrev pub any_slice : Value → Items
any_slice (arr xs) = xs
any_slice _ = nil
