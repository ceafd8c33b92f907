-- ===== src/Transform.antt =====
-- app/transform: the filters and the transform pipelines of the routes. What `jmespath.search`,
-- `str` and the arithmetic on floats return is the parameter `Tools`.
mod Examples
pub mod Contexts
pub mod Pipelines
pub mod Template
pub mod Engine
pub mod Filter
use webhook_relay_service.Prelude.{Option, Text, none, some, ℕ}
use webhook_relay_service.Model.Json.{Value}

-- What `jmespath.search` does: a value, a `JMESPathError`, or another exception.
pub data Search : Type 0 where
  result : Value → Search
  jmespath_error other_error : Search

pub record Tools : Type 0 where
  pub search : Text → Value → Search
  -- `str(value)`
  pub str_of : Value → Text
  -- `repr(float(text))`, where `none` is a `ValueError`
  pub parse_float : Text → Option Text
  -- `str(value / divisor)`, where `none` is an `OverflowError`
  pub divide : Value → Text → Option Text

-- What a pipeline raises: the step that lacks a field, the step that is refused, or an exception
-- of a tool.
pub data PipelineError : Type 0 where
  key_error value_error : ℕ → PipelineError
  tool_error : PipelineError

pub data Piped (A : Type 0) : Type 0 where
  piped : A → Piped A
  raises : PipelineError → Piped A

infixl 5 ◌>>=◌
abbrev pub ◌>>=◌ : {A B : Type 0} → Piped A → (A → Piped B) → Piped B
piped a >>= f = f a
raises e >>= f = raises e

abbrev pub or_tool_error : {A : Type 0} → Option A → Piped A
or_tool_error none = raises tool_error
or_tool_error (some a) = piped a
