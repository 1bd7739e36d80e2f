-- ===== src/Token/Examples.antt =====
-- livekit-api/src/access_token.rs and webhooks.rs with a token library whose tokens are the secret
-- itself: one token for each, with the claims of the test below.
use livekit_rust.Base.{
  ℕ, ◌≡◌, refl, Bool, true, false, List, [], ◌∷◌, some, String, ◌==◌, if◌then◌else◌, arith, inl,
  inr, eq_iff, eq_refl, ap, sym, ◌∙◌, subst, Bool-cases, ◌&&◌,
}
use native.Mathlib.Decide.{ℕ_discrete}
use livekit_rust.Base.Outcome.{Outcome, ok, err}
use livekit_rust.Token.{
  VideoGrants, from_jwt, Claims, AccessToken, Validation, Jwt, default_grants, with_api_key,
  with_ttl, with_grants, with_identity, to_jwt, verify, Hashing, receive, invalid_signature,
}
use livekit_rust.Token.Laws.{
  RoundTrips, is_valid, built_token, token_round_trip, webhook_binds_body,
}

abbrev bob : AccessToken
bob = built_token "key" "secret" "bob" default_grants 100 200 60

text-discrete : Discrete String
text-discrete s t = elim (Bool-cases (s == t)) [
  | inl same ↦ yes ((eq_iff s t).0 same)
  | inr other ↦ no (λ e. ground (arith, (eq_iff s t).1 e))
]

flag-discrete : Discrete Bool
flag-discrete = hlevel

list-discrete : Discrete (List String)
list-discrete = hlevel text-discrete

VideoGrants-discrete : Discrete VideoGrants
VideoGrants-discrete = hlevel (text-discrete, flag-discrete, list-discrete)

Claims-discrete : Discrete Claims
Claims-discrete = hlevel (ℕ_discrete, text-discrete, VideoGrants-discrete)

-- The secret is the token of Bob's claims; other claims are not encoded.
issue : {c : Claims} → String → Dec (c ≡ bob.claims) → Outcome Bool String
issue secret (yes e) = ok secret
issue secret (no ne) = err true

open_token : Bool → Outcome Bool Claims
open_token true = ok bob.claims
open_token false = err false

toy : Jwt
unfolding issue open_token
toy = record {
  Error = Bool;
  encode = λ secret c. issue secret (Claims-discrete c bob.claims);
  decode = λ secret v now token. open_token (token == secret && is_valid v now bob.claims);
}

issued_lem :
    {c : Claims} (secret token : String) (d : Dec (c ≡ bob.claims))
    → issue secret d ≡ ok token
    → (c ≡ bob.claims) × (token ≡ secret)
unfolding issue
issued_lem secret token (yes e) h = (e, cc)
issued_lem secret token (no ne) h = cc

opened :
    (secret token : String) (c : Claims) (v : Validation) (now : ℕ) (b : Bool)
    → c ≡ bob.claims
    → token ≡ secret
    → is_valid v now c ≡ b
    → open_token (token == secret && is_valid v now bob.claims) ≡ open_token b
opened secret token c v now b same own valid =
    rw (own, eq_refl secret) (ap open_token (subst (λ k. is_valid v now k ≡ b) same valid))

toy_round_trips : RoundTrips toy
unfolding toy open_token
toy_round_trips = record {
  accepts = λ secret token c v now made valid.
      let (same, own) = issued_lem secret token (Claims-discrete c bob.claims) made in
      opened secret token c v now true same own valid ∙ ap ok (sym same);
  refuses = λ secret token c v now made invalid.
      let (same, own) = issued_lem secret token (Claims-discrete c bob.claims) made in
      (false, opened secret token c v now false same own invalid);
}

issued_to_bob : (d : Dec (bob.claims ≡ bob.claims)) → issue "secret" d ≡ ok "secret"
unfolding issue
issued_to_bob (yes e) = refl
issued_to_bob (no ne) = absurd (ne refl)

made_for_bob : to_jwt toy bob ≡ ok "secret"
unfolding to_jwt toy with_identity with_grants with_ttl with_api_key
made_for_bob = ap (from_jwt toy) (issued_to_bob (Claims-discrete bob.claims bob.claims))

token_verified :
    verify toy (record { api_key = "key"; api_secret = "secret" }) 150 "secret" ≡ ok bob.claims
unfolding with_identity with_grants with_ttl with_api_key
token_verified =
    token_round_trip toy toy_round_trips "key" "secret" "bob" default_grants 100 200 60 150 "secret"
      made_for_bob (omega arith) (omega arith)

token_round_trip_example :
    verify toy (record { api_key = "key"; api_secret = "secret" }) 150 "secret" ≡ ok bob.claims
unfolding with_identity with_grants with_ttl with_api_key
token_round_trip_example =
    token_round_trip toy toy_round_trips "key" "secret" "bob" default_grants 100 200 60 150 "secret"
      made_for_bob (omega arith) (omega arith)

-- The hash says whether the text is empty.
counting : Hashing toy
counting = record {
  Event = String;
  hash = λ body. if body == "" then 0 ∷ [] else 1 ∷ [];
  decode_base64 = λ t. some (1 ∷ []);
  parse_event = λ body. some body;
}

-- The token was made for another body.
other_body_refused :
    receive toy counting (record { api_key = "key"; api_secret = "secret" }) 150 "" "secret"
    ≡ err invalid_signature
unfolding counting
other_body_refused =
    (webhook_binds_body toy counting (record { api_key = "key"; api_secret = "secret" }) 150
        "secret" "a room started" bob.claims "a room started" token_verified refl refl).1
      "" (λ e. cc)
