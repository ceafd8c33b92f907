-- ===== src/Model/Rows.antt =====
-- app/models: the rows of the database tables. A UUID is a number and a timestamp is a number of
-- milliseconds: the program only compares them. Texts are lists of code points.
use webhook_relay_service.Prelude.{ℕ, Bool, Option, List, Text}
use webhook_relay_service.Model.Json.{Value, Fields}

pub record User : Type 0 where
  pub id : ℕ
  pub email : Text
  pub display_name : Text
  pub password_hash : Text
  pub is_active : Bool
  pub created_at : ℕ

pub record Workspace : Type 0 where
  pub id : ℕ
  pub name : Text
  pub slug : Text
  pub created_at : ℕ

pub record WorkspaceMembership : Type 0 where
  pub user_id : ℕ
  pub workspace_id : ℕ
  pub role : Text
  pub joined_at : ℕ

pub record Endpoint : Type 0 where
  pub id : ℕ
  pub workspace_id : ℕ
  pub name : Text
  pub hmac_secret : Text
  pub is_active : Bool
  pub rate_limit_rps : Option ℕ
  pub ip_allowlist : Option (List Text)
  pub request_body_schema : Option Text
  pub created_at : ℕ

-- A step of a stored pipeline is any JSON object.
pub record Route : Type 0 where
  pub id : ℕ
  pub endpoint_id : ℕ
  pub name : Text
  pub url : Text
  pub method : Text
  pub headers : Option (List (Text × Text))
  pub transform_pipeline : Option (List Fields)
  pub rate_limit_rpm : Option ℕ
  pub timeout_ms : ℕ
  pub max_retries : ℕ
  pub retry_backoff_ms : ℕ
  pub is_active : Bool
  pub filter_expression : Option Text
  pub created_at : ℕ

-- The values of `Event.status` that the program writes or looks for.
pub data EventStatus : Type 0 where
  pending queued failed : EventStatus

pub record Event : Type 0 where
  pub id : ℕ
  pub endpoint_id : ℕ
  pub idempotency_key : Option Text
  pub request_body : Value
  pub request_headers : Option (List (Text × Text))
  pub status : EventStatus
  pub retry_at : Option ℕ
  pub received_at : ℕ
  pub is_discarded : Bool
  pub discarded_at : Option ℕ

-- The values of `OutboxRecord.status`.
pub data OutboxStatus : Type 0 where
  pending completed failed : OutboxStatus

pub record OutboxRecord : Type 0 where
  pub id : ℕ
  pub event_id : ℕ
  pub status : OutboxStatus
  pub publish_key : ℕ
  pub publish_topic : Text
  pub attempts : ℕ
  pub last_error : Option Text
  pub created_at : ℕ

pub record DeliveryAttempt : Type 0 where
  pub event_id : ℕ
  pub route_id : ℕ
  pub attempt_number : ℕ
  pub request_url : Text
  pub request_body : Value
  pub response_status : Option ℕ
  pub response_body : Option Text
  pub error : Option Text
  pub duration_ms : ℕ
