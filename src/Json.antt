-- ===== src/Json.antt =====
-- The values of Python that records hold (`dict[str, Any]`): what `json.loads` and the parsers make.
-- The keys of a `dict` are only compared. A float is its `repr` with its integer part, if it has one.
pub mod Str
use null.Prelude.{String, ℤ, Bool, Option, none, some, str_eq, if◌then◌else◌}
use null.Text.{Text}

mutual
  pub data Value : Type 0 where
    -- `None`
    nothing : Value
    bool : Bool → Value
    int : ℤ → Value
    float : Text → Option ℤ → Value
    str : Text → Value
    list : Items → Value
    dict : Fields → Value

  pub data Items : Type 0 where
    nil : Items
    cons : Value → Items → Items

  pub data Fields : Type 0 where
    end : Fields
    field : String → Value → Fields → Fields

-- `d.get(k)`, and `k in d` where it is `some`.
unfoldable pub get_field : String → Fields → Option Value
get_field k end = none
get_field k (field j v rest) = if str_eq j k then some v else get_field k rest
