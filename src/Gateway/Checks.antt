-- ===== src/Gateway/Checks.antt =====
-- The body limit, the signature and the stored headers against independent descriptions.
use webhook_relay_service.Prelude.{
  All, Bool-cases, List, Option, Text, [], ap, arith, codes, false, if◌then◌else◌, inl, inr, length,
  lower, lower_code, ltb, none, refl, some, text_eq_iff, true, ℕ, ◌++◌, ◌∙◌, ◌∷◌, ◌≡◌, ◌≤◌,
  length-append,
}
use webhook_relay_service.Model.Rows.{Endpoint}
use webhook_relay_service.Http.{filled, http_error}
use webhook_relay_service.Gateway.{
  Bytes, Codecs, after_prefix, check_digest, check_signature, compare_digest, is_excluded,
  read_limited_body, stored_headers, ok,
}
use mathlib.Core.List.{append-nil, append_assoc}

abbrev pub concat : List Bytes → Bytes
concat [] = []
concat (chunk ∷ rest) = chunk ++ concat rest

-- The body is the chunks together, unless that is longer than the limit; however it is cut.
pub read_limited_body-concat :
    (limit : ℕ) (body : Bytes) (chunks : List Bytes)
    → length body ≤ limit
    → read_limited_body limit body chunks ≡ (
        if ltb limit (length (body ++ concat chunks))
        then http_error 413 "request body too large"
        else ok (body ++ concat chunks))
unfolding read_limited_body
read_limited_body-concat limit body [] h = rw append-nil (ground arith)
read_limited_body-concat limit body (chunk ∷ rest) h =
    elim (Bool-cases (ltb limit (length (body ++ chunk)))) [
      | inl long ↦ ground (
        arith,
        length-append (body ++ chunk) (concat rest),
        append_assoc body chunk (concat rest),
      )
      | inr fits ↦ rw fits (
          rw (← append_assoc body chunk (concat rest))
            (read_limited_body-concat limit (body ++ chunk) rest (ground arith)))
    ]

after_prefix-append : (p t rest : Text) → after_prefix p t ≡ some rest → t ≡ p ++ rest
unfolding after_prefix
after_prefix-append [] t rest h = ground arith
after_prefix-append (c ∷ p) [] rest h = cc
after_prefix-append (c ∷ p) (d ∷ t) rest h = ground (arith, after_prefix-append p t rest)

module _ (codecs : Codecs) (endpoint : Endpoint) (raw_body : Bytes) where
  digest_checked :
      (found : Option Text)
      → check_digest codecs endpoint.hmac_secret raw_body found ≡ ok tt
      → found ≡ some (codecs.hmac_sha256_hex endpoint.hmac_secret raw_body)
  unfolding check_digest compare_digest
  digest_checked none h = cc
  digest_checked (some provided) h =
      ground (arith, text_eq_iff provided (codecs.hmac_sha256_hex endpoint.hmac_secret raw_body))

  -- For an endpoint with a secret, the header of a webhook that passes the check is "sha256=" with
  -- the HMAC of the whole body under that secret.
  pub signed_header :
      (header : Option Text)
      → filled (some endpoint.hmac_secret) ≡ true
      → check_signature codecs endpoint raw_body header ≡ ok tt
      → header ≡ some (codes "sha256=" ++ codecs.hmac_sha256_hex endpoint.hmac_secret raw_body)
  unfolding check_signature
  signed_header none secret h = ground (arith, secret, h)
  signed_header (some []) secret h = ground (arith, secret, h)
  signed_header (some (c ∷ t)) secret h = ap some (
      after_prefix-append (codes "sha256=") (c ∷ t) _
        (digest_checked (after_prefix (codes "sha256=") (c ∷ t)) (ground (arith, secret, h))))

lower_code_idem : (c : ℕ) → lower_code (lower_code c) ≡ lower_code c
lower_code_idem c = ground arith

lower_idem : (t : Text) → lower (lower t) ≡ lower t
unfolding lower
lower_idem [] = refl
lower_idem (c ∷ t) = cc (lower_code_idem c, lower_idem t)

-- A header that may be stored: its name is lower-case and not one of the excluded names.
abbrev pub MayStore : Text × Text → Type 0
MayStore (key, value) = (lower key ≡ key) × (is_excluded key ≡ false)

is_excluded-lower : (key : Text) → is_excluded (lower key) ≡ is_excluded key
unfolding is_excluded
is_excluded-lower key = rw lower_idem

-- Every header that is stored has a lower-case name that is not one of the excluded names.
pub stored_headers-MayStore : (headers : List (Text × Text)) → All MayStore (stored_headers headers)
unfolding stored_headers
stored_headers-MayStore [] = tt
stored_headers-MayStore ((k, v) ∷ hs) = elim (Bool-cases (is_excluded k)) [
  | inl secret ↦ rw secret (stored_headers-MayStore hs)
  | inr plain ↦ rw plain ((lower_idem k, is_excluded-lower k ∙ plain), stored_headers-MayStore hs)
]
