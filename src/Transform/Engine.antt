-- ===== src/Transform/Engine.antt =====
-- app/transform/engine.py: a pipeline of steps, each a dictionary with a type.
use webhook_relay_service.Transform.Template.{apply_template}
use webhook_relay_service.Transform.{
  other_error, Piped, Search, Tools, jmespath_error, key_error, or_tool_error, piped, raises,
  result, tool_error, ◌>>=◌, value_error,
}
use webhook_relay_service.Prelude.{
  Bool, List, Option, Text, [], codes, false, if◌then◌else◌, length, ltb, none, some, suc, text_eq,
  ℕ, ◌+◌, ◌∷◌,
}
use webhook_relay_service.Model.Json.{
  nil, end, Fields, Items, Value, cons, dict, field, list, null, str, get,
}

abbrev pub max_expression_len : ℕ
max_expression_len = 2048

abbrev pub count_items : Items → ℕ
count_items nil = 0
count_items (cons v vs) = suc (count_items vs)

abbrev pub count_fields : Fields → ℕ
count_fields end = 0
count_fields (field k v fs) = suc (count_fields fs)

-- `len(value)`, where `none` is a `TypeError`.
abbrev pub len : Value → Option ℕ
len (str t) = some (length t)
len (list vs) = some (count_items vs)
len (dict fs) = some (count_fields fs)
len _ = none

-- The text of an expression; `jmespath.search` raises for any other value.
abbrev pub expression_text : Value → Option Text
expression_text (str t) = some t
expression_text _ = none

-- `step.get("type") == name`.
abbrev pub has_type : Text → Option Value → Bool
has_type name (some (str t)) = text_eq t name
has_type name _ = false

module _ (tools : Tools) where
  abbrev pub searched : Value → Search → Piped Value
  searched current (result null) = piped current
  searched current (result value) = piped value
  searched current jmespath_error = raises tool_error
  searched current other_error = raises tool_error

  -- One step of the pipeline, by its place and its type.
  unfoldable pub apply_step : ℕ → Fields → Value → Piped Value
  unfolding text_eq
  apply_step idx step current =
      if has_type (codes "passthrough") (get (codes "type") step)
      then piped current
      else if has_type (codes "template") (get (codes "type") step)
      then elim (get (codes "body") step) [
        | none ↦ raises (key_error idx)
        | some body ↦ apply_template tools body current
      ]
      else if has_type (codes "jmespath") (get (codes "type") step)
      then elim (get (codes "expression") step) [
        | none ↦ raises (key_error idx)
        | some expr ↦ or_tool_error (len expr) >>= λ n.
            if ltb max_expression_len n
            then raises (value_error idx)
            else or_tool_error (expression_text expr) >>= λ t.
                searched current (tools.search t current)
      ]
      else raises (value_error idx)

  -- The steps from a place on.
  unfoldable pub apply_from : ℕ → List Fields → Value → Piped Value
  apply_from idx [] current = piped current
  apply_from idx (step ∷ rest) current =
      apply_step idx step current >>= λ next. apply_from (idx + 1) rest next

  unfoldable pub apply_pipeline : List Fields → Value → Piped Value
  apply_pipeline = apply_from 0
