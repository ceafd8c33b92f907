-- ===== src/Model/Json.antt =====
-- JSON values as Python holds them: what `json.loads` returns and a JSONB column stores. A float
-- is carried by its `repr`, which determines it; nothing below computes with it.
use webhook_relay_service.Prelude.{
  [], ◌∷◌, ℕ, zero, Bool, true, false, ◌||◌, not, Option, none, some, Text, codes, text_eq,
  if◌then◌else◌,
}

-- Python's unbounded integers: `negsuc n` is -(n + 1).
pub data ℤ : Type 0 where
  pos : ℕ → ℤ
  negsuc : ℕ → ℤ

mutual
  pub data Value : Type 0 where
    null : Value
    bool : Bool → Value
    int : ℤ → Value
    float : Text → Value
    str : Text → Value
    list : Items → Value
    dict : Fields → Value

  pub data Items : Type 0 where
    nil : Items
    cons : Value → Items → Items

  pub data Fields : Type 0 where
    end : Fields
    field : Text → Value → Fields → Fields

-- The floats that compare equal to zero.
abbrev pub zero_float : Text → Bool
zero_float r = text_eq r (codes "0.0") || text_eq r (codes "-0.0")

-- `bool(value)`.
unfoldable pub truthy : Value → Bool
unfolding text_eq
truthy null = false
truthy (bool b) = b
truthy (int (pos zero)) = false
truthy (int i) = true
truthy (float r) = not (zero_float r)
truthy (str []) = false
truthy (str (c ∷ t)) = true
truthy (list nil) = false
truthy (list (cons v vs)) = true
truthy (dict end) = false
truthy (dict (field k v f)) = true

-- `d.get(key)`.
unfoldable pub get : Text → Fields → Option Value
get k end = none
get k (field j v f) = if text_eq k j then some v else get k f

-- `d[key] = value`: an entry that is there keeps its place.
unfoldable pub put : Text → Value → Fields → Fields
put k v end = field k v end
put k v (field j w f) = if text_eq k j then field j v f else field j w (put k v f)
