-- ===== src/Prelude/Json.antt =====
-- The values that json.loads returns. Numbers are integers; the objects' keys are in order.
use nap_cli.Prelude.{
  zero, suc, String, Bool, true, false, Option, none, some, string_eq, ◌=?◌, if◌then◌else◌,
}
use nap_cli.Prelude.Int.{ℤ, pos, negsuc}

mutual
  pub data Json : Type 0 where
    null : Json
    bool : Bool → Json
    num : ℤ → Json
    str : String → Json
    arr : Items → Json
    obj : Fields → Json

  pub data Items : Type 0 where
    nil : Items
    cons : Json → Items → Items

  pub data Fields : Type 0 where
    end : Fields
    field : String → Json → Fields → Fields

-- `payload.get(key)`, with None and an absent key told apart
abbrev pub get : String → Fields → Option Json
get k end = none
get k (field j v fields) = if k =? j then some v else get k fields

abbrev pub get_or_null : String → Fields → Json
get_or_null k fields = elim (get k fields) [ none ↦ null | some v ↦ v ]

-- Python's truth of a value
abbrev pub truthy : Json → Bool
truthy null = false
truthy (bool b) = b
truthy (num (pos zero)) = false
truthy (num (pos (suc n))) = true
truthy (num (negsuc n)) = true
truthy (str s) = if s =? "" then false else true
truthy (arr nil) = false
truthy (arr (cons x xs)) = true
truthy (obj end) = false
truthy (obj (field k v fields)) = true
