-- ===== src/Samples.antt =====
-- Concrete values of the parameters and rows, for the examples.
use webhook_relay_service.UrlSecurity.{IpAddress, Net, ParsedUrl}
use webhook_relay_service.RedisMemory.{empty, empty_windows, memory, memory_windows}
use webhook_relay_service.Rbac.{Tokens}
use webhook_relay_service.Prelude.{
  Bool, Option, Text, [], codes, false, if◌then◌else◌, length, none, some, text_eq, true, ℕ, ◌∷◌,
}
use webhook_relay_service.Model.Settings.{default_settings}
use webhook_relay_service.Model.Rows.{
  Endpoint, Event, EventStatus, Route, User, WorkspaceMembership,
}
use webhook_relay_service.Model.Json.{dict, end}
use webhook_relay_service.Model.Db.{Db, empty_db}
use webhook_relay_service.Gateway.{Codecs, Gate, Moment, WebhookRequest, conforms, loaded}
use webhook_relay_service.Delivery.{Outside, RouteArgs, World, response, sent}

-- Every URL is https on one host, whose address is open.
abbrev pub open_url : ParsedUrl
open_url = record {
  scheme = codes "https";
  hostname = some (codes "shop.example");
  username = none;
  password = none;
  port = none;
}

abbrev pub open_ip : IpAddress
open_ip = record {
  is_private = false;
  is_loopback = false;
  is_link_local = false;
  is_multicast = false;
  is_reserved = false;
  is_unspecified = false;
}

abbrev pub address_of : Text → Option IpAddress
address_of t = if text_eq t (codes "93.184.216.34") then some open_ip else none

abbrev pub net : Net
net = record {
  urlparse = λ url. open_url;
  ip_address = address_of;
  getaddrinfo = λ host port. some (codes "93.184.216.34" ∷ []);
}

abbrev pub codecs : Codecs
codecs = record {
  parse_uuid = λ t. some (length t);
  is_ip_address = λ t. true;
  in_network = λ entry host. some true;
  hmac_sha256_hex = λ secret body. secret;
  json_loads = λ bytes. loaded (dict end);
  validate = λ payload schema. conforms;
}

-- A token is its own subject.
abbrev pub tokens : Tokens
tokens = record {
  jwt_decode = λ t. some (record { sub = some t; jti = some t; exp = some 200 });
  parse_uuid = λ t. some (length t);
}

abbrev pub alice : User
alice = record {
  id = 5;
  email = codes "alice@shop.example";
  display_name = codes "Alice";
  password_hash = [];
  is_active = true;
  created_at = 0;
}

abbrev pub bob : User
bob = record {
  id = 3;
  email = codes "bob@shop.example";
  display_name = codes "Bob";
  password_hash = [];
  is_active = true;
  created_at = 0;
}

abbrev pub alice_owns : WorkspaceMembership
alice_owns = record { user_id = 5; workspace_id = 2; role = codes "owner"; joined_at = 0 }

abbrev pub endpoint : Endpoint
endpoint = record {
  id = 4;
  workspace_id = 2;
  name = codes "orders";
  hmac_secret = codes "s3cret";
  is_active = true;
  rate_limit_rps = some 10;
  ip_allowlist = none;
  request_body_schema = none;
  created_at = 0;
}

abbrev pub route_row : Route
route_row = record {
  id = 8;
  endpoint_id = 4;
  name = codes "shop";
  url = codes "https://shop.example/hook";
  method = codes "POST";
  headers = none;
  transform_pipeline = none;
  rate_limit_rpm = none;
  timeout_ms = 10000;
  max_retries = 2;
  retry_backoff_ms = 1000;
  is_active = true;
  filter_expression = none;
  created_at = 0;
}

abbrev pub event : Event
event = record {
  id = 9;
  endpoint_id = 4;
  idempotency_key = none;
  request_body = dict end;
  request_headers = none;
  status = EventStatus.queued;
  retry_at = none;
  received_at = 0;
  is_discarded = false;
  discarded_at = none;
}

abbrev pub db : Db
db = record empty_db {
  users = alice ∷ bob ∷ [];
  memberships = alice_owns ∷ [];
  endpoints = endpoint ∷ [];
  routes = route_row ∷ [];
  events = event ∷ [];
}

-- A destination that answers every request with the status 500, after 20 milliseconds.
abbrev pub failing : Outside
failing = record {
  net = net;
  answer = λ n q. response 500 [];
  took_ms = λ n. 20;
  jitter_ms = λ n delay. 0;
  describe = λ e. (codes "ValueError", []);
  publish = λ letter. sent;
  raises = λ point time. false;
}

abbrev pub world : Bool → World memory memory_windows
world producer = record {
  clock = 100000;
  redis = empty;
  windows = empty_windows;
  requests = [];
  attempts = [];
  dead_letters = [];
  producer = producer;
}

abbrev pub route_args_of_shop : RouteArgs
route_args_of_shop = record {
  id = 8;
  url = codes "https://shop.example/hook";
  method = none;
  headers = none;
  timeout_ms = none;
  max_retries = some 2;
  retry_backoff_ms = none;
  rate_limit_rpm = none;
}

-- The signed webhook of the endpoint, with a key, in two chunks.
abbrev pub webhook : WebhookRequest
webhook = record {
  endpoint_id = codes "orde";
  chunks = codes "{" ∷ codes "}" ∷ [];
  client_host = some (codes "10.0.0.1");
  headers = (codes "X-Shop", codes "1") ∷ [];
  x_hub_signature_256 = some (codes "sha256=s3cret");
  idempotency_key = some (codes "k1");
}

abbrev pub moment : ℕ → Bool → Moment
moment now commits = record { now = now; event_id = 11; outbox_id = 12; commits = commits }

abbrev pub gate : Gate memory memory_windows codecs default_settings
gate = record { db = db; redis = empty; windows = empty_windows }
