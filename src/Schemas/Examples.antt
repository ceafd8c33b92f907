-- ===== src/Schemas/Examples.antt =====
-- Steps of a pipeline and filters, as requests send them.
use webhook_relay_service.Transform.Engine.{apply_pipeline}
use webhook_relay_service.Transform.{Tools, jmespath_error}
use webhook_relay_service.Schemas.Pipelines.{EndsWell, apply_pipeline-EndsWell}
use webhook_relay_service.Schemas.{
  PipelineStep, dump_pipeline, jmespath_step, passthrough_step, template_step, validate_filter,
  validate_pipeline, validate_step,
}
use webhook_relay_service.Prelude.{
  Bool, List, Text, [], codes, false, lstrip, none, not, refl, some, strip, text_eq, true, ◌∷◌, ◌≡◌,
}
use webhook_relay_service.Model.Json.{Fields, dict, field, null, str, get, end}

abbrev tools : Tools
tools = record {
  search = λ expression value. jmespath_error;
  str_of = λ value. codes "x";
  parse_float = λ t. none;
  divide = λ value divisor. none;
}

abbrev compiles : Text → Bool
compiles t = not (text_eq t (codes "["))

abbrev raws : List Fields
raws =
    field (codes "type") (str (codes "template"))
      (field (codes "body") (dict (field (codes "a") (str (codes "{{ kind }}")) end)) end)
    ∷ field (codes "expression") (str (codes "a"))
        (field (codes "type") (str (codes "jmespath")) end)
    ∷ field (codes "type") (str (codes "passthrough")) end
    ∷ []

abbrev steps : List PipelineStep
steps =
    template_step (field (codes "a") (str (codes "{{ kind }}")) end)
    ∷ jmespath_step (codes "a")
    ∷ passthrough_step
    ∷ []

taken : validate_pipeline compiles raws ≡ some steps
unfolding validate_pipeline validate_step text_eq get
taken = refl

refused : validate_pipeline compiles (field (codes "type") (str (codes "loop")) end ∷ raws) ≡ none
unfolding validate_pipeline validate_step text_eq get
refused = refl

blank_filter : validate_filter compiles (some (codes "  ")) ≡ true
unfolding validate_filter strip lstrip text_eq
blank_filter = refl

bad_filter : validate_filter compiles (some (codes "[")) ≡ false
unfolding validate_filter strip lstrip text_eq
bad_filter = refl

apply_pipeline-EndsWell_example :
    EndsWell (apply_pipeline tools (dump_pipeline steps) (dict (field (codes "kind") null end)))
apply_pipeline-EndsWell_example =
    apply_pipeline-EndsWell compiles tools raws steps (dict (field (codes "kind") null end)) taken
