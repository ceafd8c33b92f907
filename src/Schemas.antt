-- ===== src/Schemas.antt =====
-- app/schemas/api.py: what a request may contain, for the steps of a pipeline and the filter of a
-- route. `jmespath.compile` is the parameter `compiles`; pydantic's own rules are that a `Literal`
-- takes that text alone, a `str` a text, and a `dict` a dictionary.
mod Examples
pub mod Pipelines
use webhook_relay_service.Prelude.{
  Bool, List, Option, Text, [], codes, if◌then◌else◌, length, ltb, map, none, not, some, strip,
  text_eq, true, ℕ, ◌||◌, ◌∷◌,
}
use webhook_relay_service.Model.Json.{Fields, Value, dict, field, get, str, end}
use webhook_relay_service.Http.{filled}
use webhook_relay_service.Transform.Engine.{count_fields, has_type, max_expression_len}

-- A step that one of the three models took.
pub data PipelineStep : Type 0 where
  passthrough_step : PipelineStep
  template_step : Fields → PipelineStep
  jmespath_step : Text → PipelineStep

abbrev pub max_template_keys : ℕ
max_template_keys = 64

-- A validator that raises a `ValueError` has no result.
abbrev pub check_template : Option Value → Option PipelineStep
check_template (some (dict body)) =
    if ltb max_template_keys (count_fields body) then none else some (template_step body)
check_template _ = none

module _ (compiles : Text → Bool) where
  abbrev pub check_expression : Option Value → Option PipelineStep
  check_expression (some (str t)) =
      if ltb max_expression_len (length t)
      then none
      else if compiles t
      then some (jmespath_step t)
      else none
  check_expression _ = none

  -- The union of the three models, which the type tells apart.
  unfoldable pub validate_step : Fields → Option PipelineStep
  unfolding text_eq
  validate_step raw =
      if has_type (codes "passthrough") (get (codes "type") raw)
      then some passthrough_step
      else if has_type (codes "template") (get (codes "type") raw)
      then check_template (get (codes "body") raw)
      else if has_type (codes "jmespath") (get (codes "type") raw)
      then check_expression (get (codes "expression") raw)
      else none

  -- A list is refused if one of its steps is.
  abbrev pub cons_valid :
      Option PipelineStep → Option (List PipelineStep) → Option (List PipelineStep)
  cons_valid none _ = none
  cons_valid (some s) none = none
  cons_valid (some s) (some rest) = some (s ∷ rest)

  unfoldable pub validate_pipeline : List Fields → Option (List PipelineStep)
  validate_pipeline [] = some []
  validate_pipeline (raw ∷ rest) = cons_valid (validate_step raw) (validate_pipeline rest)

  -- `_validate_jmespath`: whether the filter is taken.
  unfoldable pub validate_filter : Option Text → Bool
  validate_filter none = true
  validate_filter (some expression) = not (filled (some (strip expression))) || compiles expression

-- `step.model_dump()`: what is stored of a step.
unfoldable pub dump_step : PipelineStep → Fields
dump_step passthrough_step = field (codes "type") (str (codes "passthrough")) end
dump_step (template_step body) =
    field (codes "type") (str (codes "template")) (field (codes "body") (dict body) end)
dump_step (jmespath_step expression) =
    field (codes "type") (str (codes "jmespath")) (field (codes "expression") (str expression) end)

unfoldable pub dump_pipeline : List PipelineStep → List Fields
dump_pipeline = map dump_step
