-- ===== src/Schemas/Pipelines.antt =====
-- A pipeline that was validated when its route was saved, when it runs.
use webhook_relay_service.Transform.Template.{
  apply_fields, apply_template, divide_by, eval_expr, is_number, match_template, quotient, split,
  substitute, substitute_from, template_value, walk,
}
use webhook_relay_service.Schemas.{
  PipelineStep, check_expression, check_template, cons_valid, dump_pipeline, dump_step,
  jmespath_step, passthrough_step, template_step, validate_pipeline, validate_step,
}
use webhook_relay_service.Prelude.{
  Bool, Bool-cases, List, Option, Option-cases, Text, [], arith, codes, false, if◌then◌else◌, inl,
  inr, keep, length, ltb, none, not, some, strip, suc, text_eq, true, zero, ℕ, ◌+◌, ◌==◌, ◌∷◌, ◌≡◌,
}
use webhook_relay_service.Transform.Engine.{
  apply_step, searched, max_expression_len, apply_pipeline, apply_from, has_type,
}
use webhook_relay_service.Model.Json.{end, Fields, field, null, Value, dict, zero_float, str, get}
use webhook_relay_service.Transform.{
  other_error, piped, result, tool_error, or_tool_error, raises, Piped, Tools, Search,
  jmespath_error, ◌>>=◌,
}

-- A run that ended with a value, or with an exception of a tool.
pub data EndsWell {A : Type 0} : Piped A → Type 0 where
  ended : {v : A} → EndsWell (piped v)
  tool_raised : EndsWell (raises tool_error)

bind-EndsWell :
    {A B : Type 0} {m : Piped A} {f : A → Piped B}
    → EndsWell m
    → ((a : A) → EndsWell (f a))
    → EndsWell (m >>= f)
bind-EndsWell (ended {v = v}) h = h v
bind-EndsWell tool_raised h = tool_raised

or_tool_error-EndsWell : {A : Type 0} (x : Option A) → EndsWell (or_tool_error x)
or_tool_error-EndsWell none = tool_raised
or_tool_error-EndsWell (some a) = ended

either-EndsWell :
    {A : Type 0} (b : Bool) {m n : Piped A}
    → EndsWell m
    → EndsWell n
    → EndsWell (if b then m else n)
either-EndsWell true h k = h
either-EndsWell false h k = k

module _ (tools : Tools) where
  divide_by-EndsWell : (current : Value) (part : Text) → EndsWell (divide_by tools current part)
  unfolding divide_by
  divide_by-EndsWell current part = elim (Option-cases (tools.parse_float part)) [
    | inl no_number ↦ rw (no_number, divide_by) ended
    | inr (divisor, found) ↦
        rw (found, divide_by)
          (either-EndsWell (zero_float divisor) ended
            (or_tool_error-EndsWell (tools.divide current divisor)))
  ]

  quotient-EndsWell :
      (current : Value) (parts : List Text) → EndsWell (quotient tools current parts)
  quotient-EndsWell current [] = ended
  quotient-EndsWell current (part ∷ parts) =
      either-EndsWell (is_number current) (divide_by-EndsWell current part) ended

  eval_expr-EndsWell : (expr : Text) (payload : Value) → EndsWell (eval_expr tools expr payload)
  unfolding eval_expr
  eval_expr-EndsWell expr payload =
      let path = split b'/' (keep (λ c. not (c == b' ')) expr) in
      let names = split b'.' path.0 in
      let found = walk (names.0 ∷ names.1) payload in
      either-EndsWell found.1 ended (quotient-EndsWell found.0 path.1)

  substitute_from-EndsWell :
      (fuel : ℕ) (payload : Value) (t : Text) → EndsWell (substitute_from tools fuel payload t)
  unfolding substitute_from
  substitute_from-EndsWell zero payload t = ended
  substitute_from-EndsWell (suc fuel) payload [] = ended
  substitute_from-EndsWell (suc fuel) payload (c ∷ t) =
      elim (Option-cases (match_template tools (c ∷ t))) [
        | inl no_match ↦
            rw (no_match, substitute_from)
              (bind-EndsWell (substitute_from-EndsWell fuel payload t) (λ rest. ended))
        | inr ((expr, after), found) ↦
            rw (found, substitute_from)
              (bind-EndsWell (eval_expr-EndsWell (strip expr) payload) (λ value.
                bind-EndsWell (substitute_from-EndsWell fuel payload after) (λ rest. ended)))
      ]

  template_value-EndsWell : (payload value : Value) → EndsWell (template_value tools payload value)
  unfolding substitute
  template_value-EndsWell payload (str t) =
      bind-EndsWell (substitute_from-EndsWell (length t) payload t) (λ t'. ended)
  template_value-EndsWell payload value = ended

  apply_fields-EndsWell :
      (payload : Value) (body : Fields) → EndsWell (apply_fields tools payload body)
  unfolding apply_fields
  apply_fields-EndsWell payload end = ended
  apply_fields-EndsWell payload (field key value rest) =
      bind-EndsWell (template_value-EndsWell payload value)
        (λ value'. bind-EndsWell (apply_fields-EndsWell payload rest) (λ rest'. ended))

  apply_template-EndsWell :
      (body : Fields) (payload : Value) → EndsWell (apply_template tools (dict body) payload)
  unfolding apply_template
  apply_template-EndsWell body payload =
      bind-EndsWell (apply_fields-EndsWell payload body) (λ fields'. ended)

  searched-EndsWell : (current : Value) (s : Search) → EndsWell (searched tools current s)
  searched-EndsWell current (result null) = ended
  searched-EndsWell current (result value) = ended
  searched-EndsWell current jmespath_error = tool_raised
  searched-EndsWell current other_error = tool_raised

module _ (compiles : Text → Bool) where
  no_step-of-template :
      (v : Option Value) (t : Text) → ¬ (check_template v ≡ some (jmespath_step t))
  no_step-of-template none t h = cc
  no_step-of-template (some (dict body)) t h = ground (arith, h)
  no_step-of-template (some v) t h = cc

  fits-check_expression :
      (v : Option Value) (t : Text)
      → check_expression compiles v ≡ some (jmespath_step t)
      → ltb max_expression_len (length t) ≡ false
  fits-check_expression none t h = cc
  fits-check_expression (some (str u)) t h = elim (Bool-cases (ltb max_expression_len (length u))) [
    | inl long ↦ cc
    | inr short ↦ elim (Bool-cases (compiles u)) [
      | inl compiled ↦
          (let taken = rw (short, compiled) at h in let same : u ≡ t = cc in rw (← same) short)
      | inr refused ↦ cc
    ]
  ]
  fits-check_expression (some v) t h = cc

  chosen-fits :
      (is_passthrough is_template is_jmespath : Bool) (body expression : Option Value) (t : Text)
      → (if is_passthrough
          then some passthrough_step
          else if is_template
          then check_template body
          else if is_jmespath
          then check_expression compiles expression
          else none)
        ≡ some (jmespath_step t)
      → ltb max_expression_len (length t) ≡ false
  chosen-fits true _ _ body expression t h = cc
  chosen-fits false true _ body expression t h = elim (no_step-of-template body t h) [ ]
  chosen-fits false false true body expression t h = fits-check_expression expression t h
  chosen-fits false false false body expression t h = cc

  validate_step-fits :
      (raw : Fields) (t : Text)
      → validate_step compiles raw ≡ some (jmespath_step t)
      → ltb max_expression_len (length t) ≡ false
  unfolding validate_step text_eq
  validate_step-fits raw t valid =
      chosen-fits (has_type (codes "passthrough") (get (codes "type") raw))
        (has_type (codes "template") (get (codes "type") raw))
        (has_type (codes "jmespath") (get (codes "type") raw)) (get (codes "body") raw)
        (get (codes "expression") raw) t valid

module _ (compiles : Text → Bool) (tools : Tools) where
  step-EndsWell :
      (raw : Fields) (s : PipelineStep) (idx : ℕ) (payload : Value)
      → validate_step compiles raw ≡ some s
      → EndsWell (apply_step tools idx (dump_step s) payload)
  unfolding apply_step dump_step text_eq get
  step-EndsWell raw passthrough_step idx payload valid = ended
  step-EndsWell raw (template_step body) idx payload valid =
      apply_template-EndsWell tools body payload
  step-EndsWell raw (jmespath_step t) idx payload valid =
      rw (validate_step-fits compiles raw t valid)
        (searched-EndsWell tools payload (tools.search t payload))

  cons-valid :
      (m : Option PipelineStep) (ms : Option (List PipelineStep)) (s : PipelineStep)
      (steps : List PipelineStep)
      → cons_valid compiles m ms ≡ some (s ∷ steps)
      → (m ≡ some s) × (ms ≡ some steps)
  cons-valid none ms s steps h = cc
  cons-valid (some x) none s steps h = cc
  cons-valid (some x) (some xs) s steps h = (cc, cc)

  run-EndsWell :
      (raws : List Fields) (steps : List PipelineStep) (idx : ℕ) (payload : Value)
      → validate_pipeline compiles raws ≡ some steps
      → EndsWell (apply_from tools idx (dump_pipeline steps) payload)
  unfolding validate_pipeline apply_from dump_pipeline
  run-EndsWell [] [] idx payload valid = ended
  run-EndsWell [] (s ∷ steps) idx payload valid = cc
  run-EndsWell (raw ∷ raws) [] idx payload valid = ended
  run-EndsWell (raw ∷ raws) (s ∷ steps) idx payload valid =
      let (first, rest) =
        cons-valid (validate_step compiles raw) (validate_pipeline compiles raws) s steps valid in
      bind-EndsWell (step-EndsWell raw s idx payload first)
        (λ current. run-EndsWell raws steps (idx + 1) current rest)

  -- A pipeline that was taken when its route was saved, run from what was stored of it: whatever
  -- the payload, the run ends with a value or with an exception of a tool, and never because a step
  -- lacks a field, has an unknown type or an expression that is too long.
  pub apply_pipeline-EndsWell :
      (raws : List Fields) (steps : List PipelineStep) (payload : Value)
      → validate_pipeline compiles raws ≡ some steps
      → EndsWell (apply_pipeline tools (dump_pipeline steps) payload)
  unfolding apply_pipeline
  apply_pipeline-EndsWell raws steps payload valid = run-EndsWell raws steps 0 payload valid
