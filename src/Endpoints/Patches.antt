-- ===== src/Endpoints/Patches.antt =====
-- app/api/endpoints.py and app/schemas/api.py: the fields of an update of a route.
use webhook_relay_service.UrlSecurity.{Headers, Net, validate_delivery_url}
use webhook_relay_service.Prelude.{Bool, List, Option, Text, none, some, ℕ}
use webhook_relay_service.Model.Settings.{Settings}
use webhook_relay_service.Model.Rows.{Route}
use webhook_relay_service.Model.Json.{Fields}
use webhook_relay_service.Http.{Result, or_raise, ◌>>=◌, ok}

-- A field of `RouteUpdate`: not in the request, `null`, or a value.
pub data Patch {ℓ} (A : Type ℓ) : Type ℓ where
  unset set_null : Patch A
  set_to : A → Patch A

pub record RouteUpdate : Type 0 where
  pub name : Patch Text
  pub url : Patch Text
  pub method : Patch Text
  pub headers : Patch Headers
  pub transform_pipeline : Patch (List Fields)
  pub timeout_ms : Patch ℕ
  pub max_retries : Patch ℕ
  pub retry_backoff_ms : Patch ℕ
  pub is_active : Patch Bool
  pub rate_limit_rpm : Patch ℕ
  pub filter_expression : Patch Text

-- `setattr` of a column that may be null.
abbrev pub patch_option {ℓ} : {A : Type ℓ} → Patch A → Option A → Option A
patch_option unset old = old
patch_option set_null old = none
patch_option (set_to a) old = some a

-- `setattr` of a column that may not: `none` is a null, which the commit refuses.
abbrev pub patch {ℓ} : {A : Type ℓ} → Patch A → A → Option A
patch unset old = some old
patch set_null old = none
patch (set_to a) old = some a

abbrev pub not_null {ℓ} : {A : Type ℓ} → Option A → Result A
not_null value = or_raise value 500 "IntegrityError"

-- The URL of an update is checked if there is one.
unfoldable pub check_url : Net → Settings → Patch Text → Result (Unit {0})
check_url net settings unset = ok tt
check_url net settings set_null = ok tt
check_url net settings (set_to url) = validate_delivery_url net settings url >>= λ _. ok tt

-- The row after the `setattr`s; a null in a column that allows none is refused.
unfoldable pub patched : RouteUpdate → Route → Result Route
patched body row = do
  name ← not_null (patch body.name row.name)
  url ← not_null (patch body.url row.url)
  method ← not_null (patch body.method row.method)
  timeout_ms ← not_null (patch body.timeout_ms row.timeout_ms)
  max_retries ← not_null (patch body.max_retries row.max_retries)
  retry_backoff_ms ← not_null (patch body.retry_backoff_ms row.retry_backoff_ms)
  is_active ← not_null (patch body.is_active row.is_active)
  ok (record row {
    name = name;
    url = url;
    method = method;
    headers = patch_option body.headers row.headers;
    transform_pipeline = patch_option body.transform_pipeline row.transform_pipeline;
    rate_limit_rpm = patch_option body.rate_limit_rpm row.rate_limit_rpm;
    timeout_ms = timeout_ms;
    max_retries = max_retries;
    retry_backoff_ms = retry_backoff_ms;
    is_active = is_active;
    filter_expression = patch_option body.filter_expression row.filter_expression;
  })
