-- ===== src/Cli/Masking.antt =====
-- `_mask` of cli/commands/sources.py and of cli/commands/config_cmd.py, which differ in the keys whose
-- values they mask.
pub mod Masked
use null.Prelude.{String, Bool, if◌then◌else◌}
use null.Text.{codes}
use null.Json.{
  Value, nothing, bool, int, float, str, list, dict, Items, nil, cons, Fields, end, field,
}

module _ (is_secret : String → Bool) where
  -- `_mask`
  unfoldable mutual
    pub mask : Value → Value
    mask (dict d) = dict (mask_fields d)
    mask (list d) = list (mask_items d)
    mask nothing = nothing
    mask (bool b) = bool b
    mask (int n) = int n
    mask (float shown whole) = float shown whole
    mask (str s) = str s

    pub mask_fields : Fields → Fields
    mask_fields end = end
    mask_fields (field k v rest) =
        field k (if is_secret k then str (codes "***") else mask v) (mask_fields rest)

    pub mask_items : Items → Items
    mask_items nil = nil
    mask_items (cons v rest) = cons (mask v) (mask_items rest)
