-- ===== src/Endpoints/Responses.antt =====
-- app/schemas/api.py: what a response shows of an endpoint; its schema is stored as a text of JSON.
use webhook_relay_service.Endpoints.{
  Generated, EndpointCreate, create_endpoint_as, dump_filled, own_endpoint, text_or,
}
use webhook_relay_service.Gateway.{
  Codecs, Loaded, check_conforms, check_schema, decode_error, loaded, other_error,
}
use webhook_relay_service.Http.{Result, filled, http_error, ok, ◌>>=◌}
use webhook_relay_service.Model.Db.{Db, endpoint_by_id}
use webhook_relay_service.Model.Json.{Fields, Value, dict, end, field, null}
use webhook_relay_service.Model.Rows.{Endpoint, WorkspaceMembership}
use webhook_relay_service.Prelude.{
  Bool, Option, Text, find-append, none, refl, some, true, ℕ, ◌≡◌, ==_refl, ◌==◌,
}
use webhook_relay_service.Rbac.{Tokens}
use webhook_relay_service.Workspaces.{Commit, commit}

pub record EndpointOut : Type 0 where
  pub id : ℕ
  pub workspace_id : ℕ
  pub name : Text
  pub is_active : Bool
  pub rate_limit_rps : Option ℕ
  pub request_body_schema : Option Fields
  pub created_at : ℕ

-- A text that is not the JSON of a dictionary makes the response invalid.
abbrev pub shown_schema : Loaded → Result (Option Fields)
shown_schema (loaded (dict fields)) = ok (some fields)
shown_schema (loaded null) = ok none
shown_schema (loaded _) = http_error 500 "ResponseValidationError"
shown_schema (decode_error e) = http_error 500 "ResponseValidationError"
shown_schema (other_error e) = http_error 500 e

unfoldable pub parse_schema : Codecs → Option Text → Result (Option Fields)
parse_schema codecs none = ok none
parse_schema codecs (some stored) = shown_schema (codecs.json_loads stored)

unfoldable pub endpoint_out : Codecs → Endpoint → Result EndpointOut
endpoint_out codecs ep = parse_schema codecs ep.request_body_schema >>= λ schema. ok (record {
  id = ep.id;
  workspace_id = ep.workspace_id;
  name = ep.name;
  is_active = ep.is_active;
  rate_limit_rps = ep.rate_limit_rps;
  request_body_schema = schema;
  created_at = ep.created_at;
})

-- The schema that a request asks for: an empty one counts as none.
abbrev pub given_schema : Option Fields → Option Fields
given_schema none = none
given_schema (some end) = none
given_schema (some (field k v rest)) = some (field k v rest)

-- A webhook that is checked against a schema, if there is one.
abbrev pub checked_by : Codecs → Option Fields → Value → Result (Unit {0})
checked_by codecs none payload = ok tt
checked_by codecs (some schema) payload = check_conforms (codecs.validate payload (dict schema))

module _ (codecs : Codecs) (tokens : Tokens) (at : Commit) (made : Generated)
    (membership : WorkspaceMembership) (body : EndpointCreate) where
  -- What a response shows of a new endpoint.
  abbrev pub new_out : EndpointOut
  new_out = record {
    id = at.new_id;
    workspace_id = membership.workspace_id;
    name = body.name;
    is_active = true;
    rate_limit_rps = body.rate_limit_rps;
    request_body_schema = given_schema body.request_body_schema;
    created_at = at.now;
  }

  abbrev pub new_row : Endpoint
  new_row = record {
    id = at.new_id;
    workspace_id = membership.workspace_id;
    name = body.name;
    hmac_secret = text_or body.hmac_secret made.secret;
    is_active = true;
    rate_limit_rps = body.rate_limit_rps;
    ip_allowlist = none;
    request_body_schema = dump_filled made.dumps body.request_body_schema;
    created_at = at.now;
  }

  -- An endpoint that was asked for is stored, shown and enforced.
  pub record IsInForce (db : Db) : Type 0 where
    pub row : Endpoint
    pub found : own_endpoint tokens at made membership at.new_id db ≡ (ok row, db)
    pub shown : endpoint_out codecs row ≡ ok new_out
    pub enforced :
        (payload : Value)
        → check_schema codecs row payload
          ≡ checked_by codecs (given_schema body.request_body_schema) payload

  -- `json.loads` reads back what `json.dumps` makes of a schema, which is not the empty text.
  pub record ReadsBack (schema : Option Fields) : Type 0 where
    pub loads :
        (fields : Fields)
        → schema ≡ some fields
        → codecs.json_loads (made.dumps fields) ≡ loaded (dict fields)
    pub solid : (fields : Fields) → schema ≡ some fields → filled (some (made.dumps fields)) ≡ true

  parse-dumps :
      (schema : Option Fields)
      → ReadsBack schema
      → parse_schema codecs (dump_filled made.dumps schema) ≡ ok (given_schema schema)
  unfolding parse_schema
  parse-dumps none reads = refl
  parse-dumps (some end) reads = refl
  parse-dumps (some (field k v rest)) reads = rw (reads.loads (field k v rest) refl) refl

  check-dumps :
      (row : Endpoint) (schema : Option Fields)
      → row.request_body_schema ≡ dump_filled made.dumps schema
      → ReadsBack schema
      → (payload : Value)
      → check_schema codecs row payload ≡ checked_by codecs (given_schema schema) payload
  unfolding check_schema
  check-dumps row none same reads payload = rw same refl
  check-dumps row (some end) same reads payload = rw same refl
  check-dumps row (some (field k v rest)) same reads payload =
      rw (same, reads.solid (field k v rest) refl, reads.loads (field k v rest) refl) refl

  -- An endpoint is created with a new id and its transaction commits: then its workspace finds it,
  -- a response shows the name, limit and schema that were asked for, and the gateway checks each
  -- webhook against that very schema, where an empty one counts as none. This is for a schema that
  -- `json.loads` reads back from what `json.dumps` makes of it, which is not the empty text.
  pub created-IsInForce :
      (db : Db)
      → ReadsBack body.request_body_schema
      → endpoint_by_id at.new_id db ≡ none
      → at.commits ≡ true
      → IsInForce (create_endpoint_as tokens at made membership body db).1
  unfolding create_endpoint_as commit own_endpoint endpoint_by_id endpoint_out
  created-IsInForce db reads new commits =
      rw (commits, create_endpoint_as, commit)
        (record {
          row = new_row;
          found =
              rw
                (
                  find-append (λ (e : Endpoint). e.id == at.new_id) db.endpoints new_row new
                      (==_refl at.new_id),
                  ==_refl membership.workspace_id,
                )
                refl;
          shown = rw (parse-dumps body.request_body_schema reads) refl;
          enforced = check-dumps new_row body.request_body_schema refl reads;
        })
