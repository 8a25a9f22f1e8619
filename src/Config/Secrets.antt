-- ===== src/Config/Secrets.antt =====
-- config/secrets.py. `os.environ.get(name, "")` and the text of a file are parameters: a file that
-- is none has the text `none`. The pattern matches `${`, `env` or `file`, a colon, one or more code
-- points other than `}`, and a `}`.
pub mod Shape
pub mod Insert
pub mod Paths
use null.Prelude.{
  ℕ, zero, suc, ◌-◌, ◌+◌, String, Bool, true, false, not, ◌&&◌, Option, none, some, List, [], ◌∷◌,
  ◌++◌, length, drop, ◌==◌, if◌then◌else◌,
}
use null.Text.{Text, codes, is_empty, starts_with, strip}
use null.Json.{
  Value, nothing, bool, int, float, str, list, dict, Items, nil, cons, Fields, end, field,
}

pub data Kind : Type 0 where
  env file : Kind

-- The target of a reference up to its `}`: the text before it, if there is one.
unfoldable pub until_brace : Text → Option Text
until_brace [] = none
until_brace (c ∷ s) =
    let rest = until_brace s in
    if c == b'}' then some [] else elim rest [ none ↦ none | some t ↦ some (c ∷ t) ]

abbrev pub non_empty : Kind → Option Text → Option (Kind × Text)
non_empty kind none = none
non_empty kind (some []) = none
non_empty kind (some (c ∷ t)) = some (kind, c ∷ t)

-- A match of `_REF_RE` at the start of a text: its two groups.
unfoldable pub reference : Text → Option (Kind × Text)
unfolding starts_with until_brace
reference s =
    if starts_with s (codes "${env:")
    then non_empty env (until_brace (drop 6 s))
    else if starts_with s (codes "${file:")
    then non_empty file (until_brace (drop 7 s))
    else none

-- The length of a match.
abbrev pub match_length : Kind × Text → ℕ
match_length (env, target) = length target + 7
match_length (file, target) = length target + 8

module _ (environ : Text → Option Text) (read_text : Text → Option Text) where
  abbrev pub or_nothing : Option Text → Text
  or_nothing none = []
  or_nothing (some t) = t

  -- `repl`
  unfoldable pub repl : Kind × Text → Text
  unfolding strip
  repl (env, target) = or_nothing (environ target)
  repl (file, target) = strip (or_nothing (read_text target))

  -- `_REF_RE.sub(repl, value)`: the first argument counts the code points of a match that are still
  -- to skip.
  unfoldable pub sub_from : ℕ → Text → Text
  unfolding reference repl
  sub_from n [] = []
  sub_from (suc n) (c ∷ s) = sub_from n s
  sub_from zero (c ∷ s) = elim (reference (c ∷ s)) [
    | none ↦ c ∷ sub_from 0 s
    | some m ↦ repl m ++ sub_from (match_length m - 1) s
  ]

  -- `_resolve_str`
  unfoldable pub resolve_str : Text → Text
  unfolding sub_from
  resolve_str value = sub_from 0 value

  -- `resolve_secrets`
  unfoldable mutual
    unfolding resolve_str

    pub resolve_secrets : Value → Value
    resolve_secrets (str s) = str (resolve_str s)
    resolve_secrets (dict vs) = dict (resolve_fields vs)
    resolve_secrets (list vs) = list (resolve_items vs)
    resolve_secrets nothing = nothing
    resolve_secrets (bool b) = bool b
    resolve_secrets (int n) = int n
    resolve_secrets (float shown whole) = float shown whole

    pub resolve_items : Items → Items
    resolve_items nil = nil
    resolve_items (cons v vs) = cons (resolve_secrets v) (resolve_items vs)

    pub resolve_fields : Fields → Fields
    resolve_fields end = end
    resolve_fields (field k v vs) = field k (resolve_secrets v) (resolve_fields vs)
