-- ===== src/Transform/Filter.antt =====
-- app/transform/filter.py: whether a route wants an event.
use webhook_relay_service.Transform.{other_error, Search, Tools, jmespath_error, result}
use webhook_relay_service.Prelude.{
  Bool, List, Option, Text, [], codes, false, if◌then◌else◌, none, not, some, strip, text_eq, true,
  ◌||◌, ◌∷◌,
}
use webhook_relay_service.Model.Json.{Fields, Value, dict, field, truthy, get, end, put, str}
use webhook_relay_service.Http.{filled}

abbrev pub is_context_key : Text → Bool
is_context_key key = text_eq key (codes "body") || text_eq key (codes "headers")

-- `context.setdefault(key, value)`.
abbrev pub set_default : Text → Value → Fields → Fields
set_default key value context = elim (get key context) [
  | none ↦ put key value context
  | some _ ↦ context
]

abbrev pub add_fields : Fields → Fields → Fields
add_fields end context = context
add_fields (field key value rest) context =
    add_fields rest (if is_context_key key then context else set_default key value context)

-- `value or {}`.
abbrev pub or_empty : Value → Value
or_empty value = if truthy value then value else dict end

-- The headers as a dictionary: of two equal names the last counts.
abbrev pub header_fields : Fields → List (Text × Text) → Fields
header_fields fields [] = fields
header_fields fields ((key, value) ∷ rest) = header_fields (put key (str value) fields) rest

abbrev pub fields_of : Value → Fields
fields_of (dict fields) = fields
fields_of _ = end

unfoldable pub build_filter_context : Value → Fields → Fields
build_filter_context body headers =
    add_fields (fields_of body)
      (field (codes "body") (or_empty body) (field (codes "headers") (dict headers) end))

-- A filter that is missing or blank lets every event through; one that fails lets none.
abbrev pub matched : Search → Bool
matched (result value) = truthy value
matched jmespath_error = false
matched other_error = false

module _ (tools : Tools) where
  unfoldable pub evaluate_filter : Text → Value → Search
  evaluate_filter expression context = tools.search expression context

  unfoldable pub matches_filter : Text → Value → Fields → Bool
  matches_filter expression body headers =
      if not (filled (some (strip expression)))
      then true
      else matched (evaluate_filter expression (dict (build_filter_context body headers)))

  unfoldable pub route_matches_event : Option Text → Value → Fields → Bool
  route_matches_event none body headers = true
  route_matches_event (some expression) body headers = matches_filter expression body headers
