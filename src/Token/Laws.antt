-- ===== src/Token/Laws.antt =====
-- livekit-api/src/access_token.rs and webhooks.rs: which tokens and webhooks are accepted.
use livekit_rust.Base.{
  ℕ, ◌+◌, ◌≤◌, ◌<◌, ◌≡◌, ◌≢◌, refl, sym, Bool, true, false, not, ◌&&◌, ◌||◌, List, [], ◌∷◌, some,
  String, ◌==◌, leb, arith, eq_iff, eq_refl, Bool-cases, inl, inr, ◌⊎◌, if_elim,
}
use livekit_rust.Base.Outcome.{Outcome, ok, err, panic, hang}
use livekit_rust.Token.{
  VideoGrants, Claims, AccessToken, Validation, Jwt, AccessTokenError, encoding, from_jwt,
  with_api_key, with_ttl, with_grants, with_identity, to_jwt, TokenVerifier, verify, Hashing,
  invalid_signature, same_bytes, received, receive,
}

-- The library's checks, with its leeway of 60 seconds.
abbrev pub is_valid : Validation → ℕ → Claims → Bool
is_valid v now c =
    (not v.validate_exp || leb now (c.exp + 60))
    && (not v.validate_nbf || leb c.nbf (now + 60))
    && issued c.iss v.issuer
  where
    issued : String → List String → Bool
    issued iss [] = false
    issued iss (i ∷ is) = i == iss || issued iss is

-- What the documentation of the library says: a token is decoded under the secret that it was
-- encoded with to the claims that were encoded, if these are valid, and to an error otherwise.
pub record RoundTrips (jwt : Jwt) : Type 0 where
  pub accepts :
      (secret token : String) (c : Claims) (v : Validation) (now : ℕ)
      → jwt.encode secret c ≡ ok token
      → is_valid v now c ≡ true
      → jwt.decode secret v now token ≡ ok c
  pub refuses :
      (secret token : String) (c : Claims) (v : Validation) (now : ℕ)
      → jwt.encode secret c ≡ ok token
      → is_valid v now c ≡ false
      → (e : jwt.Error) × (jwt.decode secret v now token ≡ err e)

-- A token as the builder makes it: issued, and renewed with its time to live.
abbrev pub built_token :
    String → String → String → VideoGrants → (issued_at renewed_at ttl : ℕ) → AccessToken
built_token key secret identity grants issued_at renewed_at ttl =
    with_identity identity
      (with_grants grants (with_ttl ttl renewed_at (with_api_key key secret issued_at)))

module _ (jwt : Jwt) where
  same_bytes_self : (bs : List ℕ) → same_bytes jwt bs bs ≡ true
  same_bytes_self [] = refl
  same_bytes_self (b ∷ bs) = ground (arith, same_bytes_self bs)

  same_bytes-eq : (as' bs : List ℕ) → same_bytes jwt as' bs ≡ true → as' ≡ bs
  same_bytes-eq [] [] h = refl
  same_bytes-eq [] (b ∷ bs) h = cc
  same_bytes-eq (a ∷ as') [] h = cc
  same_bytes-eq (a ∷ as') (b ∷ bs) h = ground (arith, same_bytes-eq as' bs)

  same_bytes-ne : (as' bs : List ℕ) → as' ≢ bs → same_bytes jwt as' bs ≡ false
  same_bytes-ne as' bs ne = elim (Bool-cases (same_bytes jwt as' bs)) [
    | inl same ↦ absurd (ne (same_bytes-eq as' bs same))
    | inr other ↦ other
  ]

  from_jwt-ok : {A : Type 0} (r : Outcome jwt.Error A) (a : A) → from_jwt jwt r ≡ ok a → r ≡ ok a
  from_jwt-ok (ok b) a h = cc
  from_jwt-ok (err e) a h = cc
  from_jwt-ok panic a h = cc
  from_jwt-ok hang a h = cc

  to_jwt-encoded :
      (t : AccessToken) (token : String)
      → to_jwt jwt t ≡ ok token
      → jwt.encode t.api_secret t.claims ≡ ok token
  unfolding to_jwt
  to_jwt-encoded t token =
      if_elim Encodes (t.api_key == "" || t.api_secret == "") (λ e h. cc)
        (λ e.
          if_elim Encodes (t.claims.video.room_join && t.claims.sub == "") (λ f h. cc)
            (λ f h. from_jwt-ok (jwt.encode t.api_secret t.claims) token h))
    where
      Encodes : Outcome (AccessTokenError jwt) String → Type 0
      Encodes y = y ≡ ok token → jwt.encode t.api_secret t.claims ≡ ok token

  module _ (rt : RoundTrips jwt) (key secret identity : String) (grants : VideoGrants)
      (issued_at renewed_at ttl now : ℕ) where
    abbrev built : AccessToken
    built = built_token key secret identity grants issued_at renewed_at ttl

    by_key : String → Validation
    by_key k = record { validate_exp = true; validate_nbf = true; issuer = k ∷ [] }

    built_is_valid :
        issued_at ≤ now → now ≤ renewed_at + ttl → is_valid (by_key key) now built.claims ≡ true
    unfolding with_identity with_grants with_ttl with_api_key by_key
    built_is_valid since until = rw (within, started, eq_refl key) refl
      where
        within : leb now (renewed_at + ttl + 60) ≡ true
        within = ground arith

        started : leb issued_at (now + 60) ≡ true
        started = ground arith

    built_is_invalid :
        (other : String)
        → (key ≢ other) ⊎ (renewed_at + ttl + 60 < now)
        → is_valid (by_key other) now built.claims ≡ false
    unfolding with_identity with_grants with_ttl with_api_key by_key
    built_is_invalid other (inl ne) = ground (arith, eq_iff other key)
    built_is_invalid other (inr late) = rw expired refl
      where
        expired : leb now (renewed_at + ttl + 60) ≡ false
        expired = ground arith

    -- The claims that were asked for, written out.
    abbrev pub asked_for : Claims
    asked_for = record {
      exp = renewed_at + ttl;
      iss = key;
      nbf = issued_at;
      sub = identity;
      name = "";
      video = grants;
      sha256 = "";
      metadata = "";
    }

    -- A token that the builder made is verified, under its key and secret, to exactly the claims that
    -- were asked for, from its issue on and until its time to live has passed: the key as the issuer,
    -- the identity as the subject, the grants, the time of issue and the end of the time to live, and
    -- no name, hash or metadata. Assumed: the laws of the token library.
    pub token_round_trip :
        (token : String)
        → to_jwt jwt built ≡ ok token
        → issued_at ≤ now
        → now ≤ renewed_at + ttl
        → verify jwt (record { api_key = key; api_secret = secret }) now token ≡ ok asked_for
    unfolding verify by_key with_identity with_grants with_ttl with_api_key
    token_round_trip token made since until =
        rw
          (rt.accepts secret token built.claims (by_key key) now (to_jwt-encoded built token made)
            (built_is_valid since until))
          refl

    -- A token is refused under another API key, and, more than a minute after its time to live has
    -- passed, also under its own. Assumed: the laws of the token library.
    pub token_refused :
        (token other : String)
        → to_jwt jwt built ≡ ok token
        → (key ≢ other) ⊎ (renewed_at + ttl + 60 < now)
        → (e : jwt.Error) × (verify jwt (record { api_key = other; api_secret = secret }) now token
            ≡ err (encoding e))
    unfolding verify by_key with_identity with_grants with_ttl with_api_key
    token_refused token other made reason =
        let (e, refused) =
          rt.refuses secret token built.claims (by_key other) now (to_jwt-encoded built token made)
            (built_is_invalid other reason) in
        (e, rw refused refl)

  -- A webhook is accepted for the body whose hash its token claims, and for no body of another hash:
  -- that is refused with an invalid signature, whatever it says. Assumed: the token is verified at
  -- this time, its claimed hash is base64 of the hash of `signed`, and that body is an event.
  pub webhook_binds_body :
      (h : Hashing jwt) (v : TokenVerifier jwt) (now : ℕ) (token signed : String) (c : Claims)
      (e : h.Event)
      → verify jwt v now token ≡ ok c
      → h.decode_base64 c.sha256 ≡ some (h.hash signed)
      → h.parse_event signed ≡ some e
      → (receive jwt h v now signed token ≡ ok e)
        × ((body : String)
            → h.hash body ≢ h.hash signed
            → receive jwt h v now body token ≡ err invalid_signature)
  unfolding receive received
  webhook_binds_body h v now token signed c e verified claimed event = (
    rw (receive, verified, received, claimed, same_bytes_self (h.hash signed), event) refl,
    (λ body differs.
        rw
          (
            receive,
            verified,
            received,
            claimed,
            same_bytes-ne (h.hash signed) (h.hash body) (λ q. differs (sym q)),
          )
          refl),
  )
