-- ===== src/Token.antt =====
-- livekit-api/src/access_token.rs and webhooks.rs: access tokens, their verification, and webhooks,
-- which carry a token with the hash of their body.
-- `Jwt` stands for the JSON web token library, `Hashing` for SHA-256, base64 and the JSON parser; the
-- time is an argument, in seconds.
mod Laws
mod Examples
use livekit_rust.Base.{
  ℕ, ◌+◌, Bool, true, false, not, ◌&&◌, ◌||◌, List, [], ◌∷◌, Option, none, some, String, ◌==◌,
  if◌then◌else◌, leb, nat_eq,
}
use livekit_rust.Base.Outcome.{Outcome, ok, err, panic, hang}

pub record VideoGrants : Type 0 where
  pub room_create : Bool
  pub room_list : Bool
  pub room_record : Bool
  pub room_admin : Bool
  pub room_join : Bool
  pub room : String
  pub can_publish : Bool
  pub can_subscribe : Bool
  pub can_publish_data : Bool
  pub can_publish_sources : List String
  pub can_update_own_metadata : Bool
  pub ingress_admin : Bool
  pub hidden : Bool
  pub recorder : Bool

abbrev pub default_grants : VideoGrants
default_grants = record {
  room_create = false;
  room_list = false;
  room_record = false;
  room_admin = false;
  room_join = false;
  room = "";
  can_publish = true;
  can_subscribe = true;
  can_publish_data = true;
  can_publish_sources = [];
  can_update_own_metadata = false;
  ingress_admin = false;
  hidden = false;
  recorder = false;
}

pub record Claims : Type 0 where
  pub exp : ℕ
  pub iss : String
  pub nbf : ℕ
  pub sub : String
  pub name : String
  pub video : VideoGrants
  pub sha256 : String
  pub metadata : String

pub record AccessToken : Type 0 where
  pub api_key : String
  pub api_secret : String
  pub claims : Claims

abbrev pub default_ttl : ℕ
default_ttl = 21600

unfoldable pub with_api_key : String → String → ℕ → AccessToken
with_api_key key secret now = record {
  api_key = key;
  api_secret = secret;
  claims = record {
    exp = now + default_ttl;
    iss = key;
    nbf = now;
    sub = "";
    name = "";
    video = default_grants;
    sha256 = "";
    metadata = "";
  };
}

unfoldable pub with_ttl : ℕ → ℕ → AccessToken → AccessToken
with_ttl ttl now t = record t { claims = record t.claims { exp = now + ttl } }

unfoldable pub with_grants : VideoGrants → AccessToken → AccessToken
with_grants grants t = record t { claims = record t.claims { video = grants } }

unfoldable pub with_identity : String → AccessToken → AccessToken
with_identity identity t = record t { claims = record t.claims { sub = identity } }

unfoldable pub with_name : String → AccessToken → AccessToken
with_name name t = record t { claims = record t.claims { name = name } }

unfoldable pub with_metadata : String → AccessToken → AccessToken
with_metadata metadata t = record t { claims = record t.claims { metadata = metadata } }

unfoldable pub with_sha256 : String → AccessToken → AccessToken
with_sha256 sha256 t = record t { claims = record t.claims { sha256 = sha256 } }

pub record Validation : Type 0 where
  pub validate_exp : Bool
  pub validate_nbf : Bool
  pub issuer : List String

pub record Jwt : Type 1 where
  pub Error : Type 0
  pub encode : String → Claims → Outcome Error String
  pub decode : String → Validation → ℕ → String → Outcome Error Claims

module _ (jwt : Jwt) where
  pub data AccessTokenError : Type 0 where
    invalid_keys : AccessTokenError
    invalid_claims : String → AccessTokenError
    encoding : jwt.Error → AccessTokenError

  abbrev pub from_jwt : {A : Type 0} → Outcome jwt.Error A → Outcome AccessTokenError A
  from_jwt (ok a) = ok a
  from_jwt (err e) = err (encoding e)
  from_jwt panic = panic
  from_jwt hang = hang

  unfoldable pub to_jwt : AccessToken → Outcome AccessTokenError String
  to_jwt t =
      if t.api_key == "" || t.api_secret == ""
      then err invalid_keys
      else if t.claims.video.room_join && t.claims.sub == ""
      then err (invalid_claims "token grants room_join but doesn't have an identity")
      else from_jwt (jwt.encode t.api_secret t.claims)

  pub record TokenVerifier : Type 0 where
    pub api_key : String
    pub api_secret : String

  unfoldable pub verify : TokenVerifier → ℕ → String → Outcome AccessTokenError Claims
  verify v now token = from_jwt (
      jwt.decode v.api_secret
        (record { validate_exp = true; validate_nbf = true; issuer = v.api_key ∷ [] }) now token)

  -- The hash of a text, base64's decoder, and the parser of an event.
  pub record Hashing : Type 1 where
    pub Event : Type 0
    pub hash : String → List ℕ
    pub decode_base64 : String → Option (List ℕ)
    pub parse_event : String → Option Event

  pub data WebhookError : Type 0 where
    invalid_signature invalid_base64 invalid_data : WebhookError
    invalid_auth : AccessTokenError → WebhookError

  abbrev pub same_bytes : List ℕ → List ℕ → Bool
  same_bytes [] [] = true
  same_bytes (a ∷ as') (b ∷ bs) = nat_eq a b && same_bytes as' bs
  same_bytes _ _ = false

  module _ (hashing : Hashing) where
    received : String → Claims → Outcome WebhookError hashing.Event
    received body claims = elim (hashing.decode_base64 claims.sha256) [
      | none ↦ err invalid_base64
      | some claim_hash ↦
          if same_bytes claim_hash (hashing.hash body)
          then elim (hashing.parse_event body) [ none ↦ err invalid_data | some e ↦ ok e ]
          else err invalid_signature
    ]

    unfoldable pub receive :
        TokenVerifier → ℕ → String → String → Outcome WebhookError hashing.Event
    unfolding received verify
    receive v now body auth_token = elim (verify v now auth_token) [
      | ok claims ↦ received body claims
      | err e ↦ err (invalid_auth e)
      | panic ↦ panic
      | hang ↦ hang
    ]
