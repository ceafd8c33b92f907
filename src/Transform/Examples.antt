-- ===== src/Transform/Examples.antt =====
-- Filters, pipelines and templates on concrete values.
use webhook_relay_service.Transform.Template.{
  eval_expr, match_template, substitute, substitute_from, walk,
}
use webhook_relay_service.Transform.{Tools, piped, result}
use webhook_relay_service.Prelude.{Text, codes, lstrip, none, refl, strip, text_eq, ◌≡◌}
use webhook_relay_service.Model.Json.{Fields, Value, dict, field, null, str, end}

abbrev tools : Tools
tools = record {
  search = λ expression value. result value;
  str_of = λ value. codes "x";
  parse_float = λ t. none;
  divide = λ value divisor. none;
}

abbrev body : Value
body = dict (field (codes "kind") (str (codes "order")) (field (codes "body") null end))

hello : substitute tools body (codes "hi {{ kind }}!") ≡ piped (codes "hi x!")
unfolding substitute substitute_from match_template eval_expr walk strip lstrip text_eq
hello = refl

abbrev step : Text → Fields
step name = field (codes "type") (str name) end
