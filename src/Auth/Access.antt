-- ===== src/Auth/Access.antt =====
-- What the tokens that `login` gives are good for.
use research_assistant.Base.{
  ℕ, ◌≡◌, ◌≤◌, ◌<◌, ◌+◌, refl, subst, String, Bool, true, false, Option, none, some, List, [], ◌∷◌,
  ◌++◌, arith, ◌==◌, string_eq, eq_iff, Bool-cases, inl, inr, mem, Distinct, beq_refl,
}
use research_assistant.Core.Errors.{ok, raise_insight}
use research_assistant.Auth.{
  User, AuthSession, Store, add_session, first, get_by_email, get_by_id, is_revoked,
  get_by_refresh_token_hash,
}
use research_assistant.Auth.Tokens.{
  Crypto, Settings, Claims, access_token_type, microseconds, create_access_token,
  decode_access_token, hash_refresh_token,
}
use research_assistant.Auth.Service.{
  AuthResult, Draws, Client, issue_token_pair, login, refresh, refresh_session, new_session,
  token_pair, authenticate_access_token,
}
use research_assistant.Auth.Tables.{IsConsistent, user_ids, session_ids}
use research_assistant.Auth.{revoke, update, revoked}
use research_assistant.Auth.Tables.{session_ids-update}
use research_assistant.Auth.SignIn.{mem-get_by_email, issue_token_pair-ok}

-- With the configured secret and algorithm, the token library reads an access token that it signed back,
-- while the token lives. It keeps times in whole seconds, so that the last second may be missing.
abbrev pub IsSigned : Crypto → Settings → Type 0
IsSigned crypto settings =
    (claims : Claims) (now : ℕ)
    → claims.token_type ≡ access_token_type
    → claims.iat ≤ now
    → now + 1000000 ≤ claims.exp
    → crypto.jwt_decode (crypto.jwt_encode claims settings.jwt_secret settings.jwt_algorithm)
        settings.jwt_secret (settings.jwt_algorithm ∷ []) now
      ≡ some (record { sub = claims.sub; token_type = some access_token_type })

get_by_refresh_token_hash-snoc :
    (xs : List AuthSession) (session : AuthSession)
    → get_by_refresh_token_hash session.refresh_token_hash xs ≡ none
    → get_by_refresh_token_hash session.refresh_token_hash (xs ++ (session ∷ [])) ≡ some session
unfolding get_by_refresh_token_hash first
get_by_refresh_token_hash-snoc [] session out = ground (arith, beq_refl session.refresh_token_hash)
get_by_refresh_token_hash-snoc (x ∷ xs) session out =
    ground (arith, out, get_by_refresh_token_hash-snoc xs session)

module _ (crypto : Crypto) (settings : Settings) where
  get_by_email-IsNamed :
      (email : String) (users : List User) (user : User)
      → get_by_email email users ≡ some user
      → Distinct (user_ids users)
      → get_by_id user.user_id users ≡ some user
  unfolding get_by_email get_by_id first mem
  get_by_email-IsNamed email [] user found d = ground arith
  get_by_email-IsNamed email (u ∷ users) user found d = elim (Bool-cases (u.email == email)) [
    | inl same ↦ ground (arith, same, found, beq_refl u.user_id)
    | inr other ↦ ground (
      arith,
      other,
      found,
      d.0,
      eq_iff u.user_id user.user_id,
      mem-get_by_email email users user (ground (arith, other, found)),
      get_by_email-IsNamed email users user (ground (arith, other, found)) d.1,
    )
  ]

  login_found :
      (draws : Draws) (client : Client) (email password : String) (store : Store)
      → (result : AuthResult)
      → (login crypto settings draws client email password store).0 ≡ ok result
      → (user : User) × (get_by_email email store.users ≡ some user)
        × (user.is_active ≡ true)
        × (result ≡ token_pair crypto settings draws user)
        × ((login crypto settings draws client email password store).1 ≡ record store {
          sessions = store.sessions ++ (new_session crypto settings draws client user ∷ []);
        })
  unfolding login issue_token_pair add_session raise_insight
  login_found draws client email password store result done =
      go (get_by_email email store.users) refl
    where
      go :
          (o : Option User)
          → get_by_email email store.users ≡ o
          → (user : User) × (get_by_email email store.users ≡ some user)
            × (user.is_active ≡ true)
            × (result ≡ token_pair crypto settings draws user)
            × ((login crypto settings draws client email password store).1 ≡ record store {
              sessions = store.sessions ++ (new_session crypto settings draws client user ∷ []);
            })
      go none e = absurd (ground (arith, e, done))
      go (some user) e =
          (user, e, ground (arith, e, done), ground (arith, e, done), ground (arith, e, done))

  -- The access token of a `login` that succeeds authenticates the user who logged in: at any time from
  -- the signing to a second before the expiry, `authenticate_access_token` gives that user, provided
  -- that the store is consistent, that the token library reads back what it signs with the
  -- configured secret and algorithm, and that the user's id is the text of a UUID.
  pub login-authenticate_access_token :
      (draws : Draws) (client : Client) (email password : String) (store : Store)
      → (result : AuthResult) (now : ℕ) → IsSigned crypto settings
      → IsConsistent store
      → (login crypto settings draws client email password store).0 ≡ ok result
      → crypto.parse_uuid result.user.user_id ≡ some result.user.user_id
      → draws.signed_at ≤ now
      → now + 1000000 ≤ draws.signed_at + microseconds result.expires_in
      → authenticate_access_token crypto settings now result.access_token
          (login crypto settings draws client email password store).1
        ≡ ok result.user
  unfolding authenticate_access_token create_access_token decode_access_token
  login-authenticate_access_token draws client email password store result now signs c done uuid
        from until =
      let (user, found, active, pair, behind) =
        login_found draws client email password store result done in
      ground (
        arith,
        pair,
        behind,
        active,
        uuid,
        beq_refl access_token_type,
        get_by_email-IsNamed email store.users user found c.user_ids_unique,
        signs
            (record {
              sub = user.user_id;
              token_type = access_token_type;
              iat = draws.signed_at;
              exp = draws.signed_at + microseconds settings.jwt_access_token_ttl_seconds;
              jti = draws.jti;
            })
            now refl from (ground (arith, until, pair)),
      )

  refresh_session-ok :
      (draws : Draws) (client : Client) (session : AuthSession) (user : User) (store : Store)
      → is_revoked session ≡ false
      → draws.checked_at < session.expires_at
      → mem draws.session_uuid (session_ids store.sessions) ≡ false
      → mem user.user_id (user_ids store.users) ≡ true
      → (refresh_session crypto settings draws client session user store).0
        ≡ ok (token_pair crypto settings draws user)
  unfolding refresh_session revoke
  refresh_session-ok draws client session user store live in_time fresh known =
      let p : AuthSession → Bool = λ s. s.session_id == session.session_id in
      ground (
        arith,
        live,
        in_time,
        issue_token_pair-ok crypto settings draws client user
            (record store { sessions = update p (revoked draws.revoked_at) store.sessions })
            (rw (session_ids-update p draws.revoked_at store.sessions, fresh)) known,
      )

  -- The refresh token of a `login` that succeeds is good for a refresh: before its expiry, `refresh`
  -- with it on the store that `login` leaves gives a token pair for the same user, provided that the
  -- store is consistent, that no session had the token's hash before, and that the drawn session id
  -- is not in use.
  pub login-refresh :
      (draws later : Draws) (client other_client : Client) (email password : String) (store : Store)
      → (result : AuthResult) → IsConsistent store
      → (login crypto settings draws client email password store).0 ≡ ok result
      → get_by_refresh_token_hash (hash_refresh_token crypto draws.token) store.sessions ≡ none
      → later.checked_at < draws.issued_at + microseconds settings.jwt_refresh_token_ttl_seconds
      → mem later.session_uuid
          (session_ids (login crypto settings draws client email password store).1.sessions)
        ≡ false
      → (refresh crypto settings later other_client result.refresh_token
          (login crypto settings draws client email password store).1).0
        ≡ ok (token_pair crypto settings later result.user)
  unfolding refresh
  login-refresh draws later client other_client email password store result c done out in_time
        fresh =
      let (user, found, active, pair, behind) =
        login_found draws client email password store result done in
      let new = new_session crypto settings draws client user in
      let store' : Store = record store { sessions = store.sessions ++ (new ∷ []) } in
      ground (
        arith,
        pair,
        behind,
        active,
        get_by_refresh_token_hash-snoc store.sessions new out,
        get_by_email-IsNamed email store.users user found c.user_ids_unique,
        refresh_session-ok later other_client new user store' refl in_time
            (subst (λ s. mem later.session_uuid (session_ids s.sessions) ≡ false) behind fresh)
            (mem-get_by_email email store.users user found),
      )
