-- ===== src/Json.antt =====
-- JSON values, as `json.loads` gives them to the program. A number is a natural number, or its
-- literal for any other; the program tells numbers from other values, and 1 from the rest.
use memry_os_lite.Prelude.{ℕ, Text, Bool, Option, none, some, List, [], ◌∷◌, teq, if◌then◌else◌}

mutual
  pub data Json : Type 0 where
    null : Json
    boolean : Bool → Json
    number : ℕ → Json
    other_number : Text → Json
    str : Text → Json
    arr : Items → Json
    obj : Fields → Json

  pub data Items : Type 0 where
    nil : Items
    item : Json → Items → Items

  pub data Fields : Type 0 where
    end : Fields
    field : Text → Json → Fields → Fields

unfoldable pub items : Items → List Json
items nil = []
items (item j js) = j ∷ items js

-- `d.get(key)`, where the keys of `d` are distinct; `none` is an absent key
unfoldable pub field_of : Text → Fields → Option Json
field_of key end = none
field_of key (field k v fs) = if teq key k then some v else field_of key fs

-- `x.get(key)` with `None` for an absent key
unfoldable pub get_field : Text → Fields → Json
unfolding field_of
get_field key fs = elim (field_of key fs) [ none ↦ null | some j ↦ j ]

-- the text, if the value is a `str`
abbrev pub as_str : Json → Option Text
as_str (str s) = some s
as_str _ = none

-- the fields, if the value is a `dict`
abbrev pub as_obj : Json → Option Fields
as_obj (obj fs) = some fs
as_obj _ = none

-- the elements, if the value is a `list`
unfoldable pub as_arr : Json → Option (List Json)
unfolding items
as_arr (arr js) = some (items js)
as_arr _ = none

abbrev pub is_null : Json → Bool
is_null null = Bool.true
is_null _ = Bool.false
