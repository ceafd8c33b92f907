-- ===== src/Transform/Template.antt =====
-- app/transform/engine.py: the templates, whose strings hold expressions between braces.
use webhook_relay_service.Workspaces.Owners.{after}
use webhook_relay_service.Transform.{Piped, Tools, or_tool_error, piped, raises, tool_error, ◌>>=◌}
use webhook_relay_service.Prelude.{
  Bool, List, Option, Text, [], codes, false, if◌then◌else◌, keep, length, none, not, some, strip,
  suc, true, zero, ℕ, ◌&&◌, ◌++◌, ◌==◌, ◌∷◌,
}
use webhook_relay_service.Model.Json.{
  end, Fields, Value, bool, dict, field, float, zero_float, int, str, get,
}
use webhook_relay_service.Delivery.{get_or}

-- `text.split(separator)`: the first piece and the others.
abbrev pub split : ℕ → Text → Text × List Text
split separator [] = ([], [])
split separator (c ∷ t) =
    let (piece, rest) = split separator t in
    if c == separator then ([], piece ∷ rest) else (c ∷ piece, rest)

-- The value at the end of a path, and whether the path left the dictionaries before its end.
unfoldable pub walk : List Text → Value → Value × Bool
walk [] current = (current, false)
walk (part ∷ parts) (dict fields) = walk parts (get_or (get part fields) (str []))
walk (part ∷ parts) current = (current, true)

-- `isinstance(current, (int, float))`, which holds for a Boolean too.
abbrev pub is_number : Value → Bool
is_number (bool b) = true
is_number (int i) = true
is_number (float x) = true
is_number _ = false

module _ (tools : Tools) where
  -- Division by the second part; one that is no number is ignored.
  unfoldable pub divide_by : Value → Text → Piped Text
  divide_by current part = elim (tools.parse_float part) [
    | none ↦ piped (tools.str_of current)
    | some divisor ↦
        if zero_float divisor
        then piped (codes "0")
        else or_tool_error (tools.divide current divisor)
  ]

  abbrev pub quotient : Value → List Text → Piped Text
  quotient current [] = piped (tools.str_of current)
  quotient current (part ∷ parts) =
      if is_number current then divide_by current part else piped (tools.str_of current)

  -- `_eval_expr`.
  unfoldable pub eval_expr : Text → Value → Piped Text
  eval_expr expr payload =
      let (path, divisors) = split b'/' (keep (λ c. not (c == b' ')) expr) in
      let (name, names) = split b'.' path in
      let (current, left) = walk (name ∷ names) payload in
      if left then piped (tools.str_of current) else quotient current divisors

  -- After "{{": the shortest non-empty expression on one line before "}}", and what follows.
  abbrev pub until_close : Text → Option (Text × Text)
  until_close [] = none
  until_close (c ∷ []) = none
  until_close (c ∷ d ∷ t) =
      let later = until_close (d ∷ t) in
      if c == b'}' && d == b'}'
      then some ([], t)
      else if c == 10
      then none
      else elim later [ none ↦ none | some found ↦ some (c ∷ found.0, found.1) ]

  abbrev pub match_expr : Text → Option (Text × Text)
  match_expr [] = none
  match_expr (c ∷ t) =
      if c == 10
      then none
      else elim (until_close t) [ none ↦ none | some found ↦ some (c ∷ found.0, found.1) ]

  -- A match of the pattern `\{\{(.+?)\}\}` at the start.
  unfoldable pub match_template : Text → Option (Text × Text)
  match_template (c ∷ d ∷ t) = if c == b'{' && d == b'{' then match_expr t else none
  match_template _ = none

  -- `TEMPLATE_PATTERN.sub`, from the left; a step consumes at least one character, so the length
  -- of the text is enough fuel.
  unfoldable pub substitute_from : ℕ → Value → Text → Piped Text
  substitute_from zero payload t = piped t
  substitute_from (suc fuel) payload [] = piped []
  substitute_from (suc fuel) payload (c ∷ t) = elim (match_template (c ∷ t)) [
    | none ↦ substitute_from fuel payload t >>= λ rest. piped (c ∷ rest)
    | some (expr, after) ↦ eval_expr (strip expr) payload >>= λ value.
        substitute_from fuel payload after >>= λ rest. piped (value ++ rest)
  ]

  unfoldable pub substitute : Value → Text → Piped Text
  substitute payload t = substitute_from (length t) payload t

  abbrev pub template_value : Value → Value → Piped Value
  template_value payload (str t) = substitute payload t >>= λ t'. piped (str t')
  template_value payload value = piped value

  -- The fields of the template, each string with its expressions replaced.
  unfoldable pub apply_fields : Value → Fields → Piped Fields
  apply_fields payload end = piped end
  apply_fields payload (field key value rest) = template_value payload value >>= λ value'.
      apply_fields payload rest >>= λ rest'. piped (field key value' rest')

  -- `template.items()` wants a dictionary.
  unfoldable pub apply_template : Value → Value → Piped Value
  apply_template (dict fields) payload =
      apply_fields payload fields >>= λ fields'. piped (dict fields')
  apply_template _ payload = raises tool_error
