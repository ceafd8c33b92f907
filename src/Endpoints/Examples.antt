-- ===== src/Endpoints/Examples.antt =====
-- The URL of a route is changed.
use webhook_relay_service.Endpoints.Lookups.{routes_of}
use webhook_relay_service.Samples.{bob, endpoint}
use webhook_relay_service.Endpoints.Isolation.{
  rotate, EndpointRequest, after_request, outsider-IsUntouched,
}
use webhook_relay_service.Model.Db.{endpoint_by_id, membership_by_id, Db}
use webhook_relay_service.Http.{ok}
use webhook_relay_service.Workspaces.{Commit}
use webhook_relay_service.UrlSecurity.Accepted.{validate_iff}
use webhook_relay_service.UrlSecurity.{is_blocked_host, is_blocked_ip, validate_delivery_url}
use webhook_relay_service.Samples.{alice_owns, codecs, tokens, net, db}
use webhook_relay_service.Prelude.{
  Option, ap, [], codes, lower, refl, text_eq, true, ◌≡◌, ◌∷◌, some, none,
}
use webhook_relay_service.Model.Settings.{default_settings}
use webhook_relay_service.Endpoints.SafeUrls.{
  HasSafeRoutes, RouteRequest, after-HasSafeRoutes, update, after,
}
use webhook_relay_service.Endpoints.Patches.{RouteUpdate, set_to, unset}
use webhook_relay_service.Endpoints.{EndpointCreate, Generated, create_endpoint_as}
use webhook_relay_service.Endpoints.Responses.{IsInForce, ReadsBack, created-IsInForce}
use webhook_relay_service.Gateway.{Codecs, Loaded, loaded, violates}
use webhook_relay_service.Model.Json.{Fields, dict, end, field, null, str}

abbrev request_time : Commit
request_time = record { now = 100000; new_id = 20; commits = true }

abbrev generated : Generated
generated = record { secret = codes "fresh"; dumps = λ fields. [] }

abbrev new_url : RouteUpdate
new_url = record {
  name = unset;
  url = set_to (codes "https://shop.example/new");
  method = unset;
  headers = unset;
  transform_pipeline = unset;
  timeout_ms = unset;
  max_retries = unset;
  retry_backoff_ms = unset;
  is_active = unset;
  rate_limit_rpm = unset;
  filter_expression = unset;
}

abbrev change : RouteRequest
change = update (codes "route-08") new_url

shop_url :
    validate_delivery_url net default_settings (codes "https://shop.example/hook")
    ≡ ok (codes "https://shop.example/hook")
unfolding validate_delivery_url is_blocked_host is_blocked_ip lower text_eq
shop_url = refl

after-HasSafeRoutes_example :
    HasSafeRoutes tokens net default_settings request_time generated alice_owns
      (after tokens net default_settings request_time generated alice_owns change db)
after-HasSafeRoutes_example =
    after-HasSafeRoutes tokens net default_settings request_time generated alice_owns change db
      (record {
        all_safe = (
          (validate_iff net default_settings (codes "https://shop.example/hook")).0 shop_url,
          tt,
        );
      })

-- Bob has a workspace of his own, and asks for a new secret of Alice's endpoint.
abbrev two_places : Db
two_places = record db {
  memberships =
      alice_owns
      ∷ record { user_id = 3; workspace_id = 3; role = codes "owner"; joined_at = 0 }
      ∷ [];
}

abbrev theft : EndpointRequest
theft = rotate (codes "bob") (codes "ep04")

stored : endpoint_by_id 4 two_places ≡ some endpoint
unfolding endpoint_by_id
stored = refl

outsider : membership_by_id 3 2 two_places ≡ none
unfolding membership_by_id
outsider = refl

outsider-IsUntouched_example :
    (endpoint_by_id 4
        (after_request tokens net default_settings request_time generated bob two_places theft)
      ≡ some endpoint)
    × (routes_of 4
          (after_request tokens net default_settings request_time generated bob two_places
            theft).routes
        ≡ routes_of 4 two_places.routes)
outsider-IsUntouched_example =
    outsider-IsUntouched tokens net default_settings request_time generated bob two_places 4
      endpoint stored outsider theft

-- A schema, and a `json` that knows its text only.
abbrev schema : Fields
schema = field (codes "type") (str (codes "object")) end

abbrev json_codecs : Codecs
json_codecs = record codecs {
  json_loads = λ bytes. loaded (dict schema);
  validate = λ payload against. violates "kind";
}

abbrev json_generated : Generated
json_generated = record { secret = codes "fresh"; dumps = λ fields. codes "{\"type\": \"object\"}" }

abbrev request : EndpointCreate
request = record {
  name = codes "shop";
  hmac_secret = none;
  rate_limit_rps = some 5;
  request_body_schema = some schema;
}

abbrev as_loaded : Option Fields → Loaded
as_loaded none = loaded null
as_loaded (some fields) = loaded (dict fields)

reads_back :
    ReadsBack json_codecs tokens request_time json_generated alice_owns request (some schema)
reads_back = record { loads = λ fields same. ap as_loaded same; solid = λ fields same. refl }

created-IsInForce_example :
    IsInForce json_codecs tokens request_time json_generated alice_owns request
      (create_endpoint_as tokens request_time json_generated alice_owns request db).1
unfolding endpoint_by_id
created-IsInForce_example =
    created-IsInForce json_codecs tokens request_time json_generated alice_owns request db
      reads_back refl refl
