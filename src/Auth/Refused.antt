-- ===== src/Auth/Refused.antt =====
-- What ends a refresh token: its use, the end of its session, and the end of all of its user's.
use research_assistant.Base.{
  ℕ, ◌≡◌, refl, String, true, Option, none, some, List, [], ◌∷◌, arith, ◌==◌, string_eq, eq_iff,
  Bool-cases, inl, inr,
}
use research_assistant.Core.Errors.{ok, err, raise_insight}
use research_assistant.Auth.{
  User, AuthSession, Store, first, add_session, get_by_refresh_token_hash, get_by_id, revoke,
  revoke_all_for_user, update,
}
use research_assistant.Auth.Tokens.{Crypto, Settings, hash_refresh_token}
use research_assistant.Auth.Service.{
  AuthResult, Draws, Client, issue_token_pair, refresh, refresh_session, logout, logout_all,
  new_session,
}
use research_assistant.Auth.History.{Reaches}
use research_assistant.Auth.Revoked.{dead, dead-append, dead-revoke}
use research_assistant.Auth.Rotation.{invalid, dead-Reaches}

dead-revoke_owner :
    (h user_id : String) (at : ℕ) (xs : List AuthSession) (session : AuthSession)
    → get_by_refresh_token_hash h xs ≡ some session
    → session.owner ≡ user_id
    → dead h (revoke_all_for_user user_id at xs).1 ≡ true
unfolding dead first get_by_refresh_token_hash update revoke_all_for_user
dead-revoke_owner h user_id at [] session found own = ground arith
dead-revoke_owner h user_id at (x ∷ xs) session found own =
    elim (Bool-cases (x.refresh_token_hash == h)) [
      | inl same ↦ ground (arith, same, found, own, eq_iff session.owner user_id)
      | inr other ↦ ground (
        arith,
        other,
        dead-revoke_owner h user_id at xs session (ground (arith, other, found)) own,
      )
    ]

module _ (crypto : Crypto) (settings : Settings) where
  refresh-dead :
      (draws : Draws) (client : Client) (token : String) (store : Store)
      → dead (hash_refresh_token crypto token) store.sessions ≡ true
      → (refresh crypto settings draws client token store).0 ≡ err invalid
  unfolding refresh refresh_session dead
  refresh-dead draws client token store d =
      go (get_by_refresh_token_hash (hash_refresh_token crypto token) store.sessions) refl
    where
      with_user :
          (session : AuthSession) (o : Option User)
          → get_by_refresh_token_hash (hash_refresh_token crypto token) store.sessions
            ≡ some session
          → get_by_id session.owner store.users ≡ o
          → (refresh crypto settings draws client token store).0 ≡ err invalid
      with_user session none e f = ground (arith, e, f)
      with_user session (some user) e f = ground (arith, e, f, d)

      go :
          (o : Option AuthSession)
          → get_by_refresh_token_hash (hash_refresh_token crypto token) store.sessions ≡ o
          → (refresh crypto settings draws client token store).0 ≡ err invalid
      go none e = ground (arith, e)
      go (some session) e = with_user session (get_by_id session.owner store.users) e refl

  dead-refresh_session_ok :
      (h : String) (draws : Draws) (client : Client) (session : AuthSession) (user : User)
      (store : Store)
      → (result : AuthResult) → get_by_refresh_token_hash h store.sessions ≡ some session
      → (refresh_session crypto settings draws client session user store).0 ≡ ok result
      → dead h (refresh_session crypto settings draws client session user store).1.sessions ≡ true
  unfolding refresh_session issue_token_pair add_session raise_insight
  dead-refresh_session_ok h draws client session user store result found done = ground (
    arith,
    done,
    dead-append h (revoke session.session_id draws.revoked_at store.sessions)
        (new_session crypto settings draws client user ∷ [])
        (dead-revoke h draws.revoked_at store.sessions session found),
  )

  dead-refresh_ok :
      (draws : Draws) (client : Client) (token : String) (store : Store) (result : AuthResult)
      → (refresh crypto settings draws client token store).0 ≡ ok result
      → dead
          (hash_refresh_token crypto token)
          (refresh crypto settings draws client token store).1.sessions
        ≡ true
  unfolding refresh
  dead-refresh_ok draws client token store result done =
      go (get_by_refresh_token_hash (hash_refresh_token crypto token) store.sessions) refl
    where
      with_user :
          (session : AuthSession) (o : Option User)
          → get_by_refresh_token_hash (hash_refresh_token crypto token) store.sessions
            ≡ some session
          → get_by_id session.owner store.users ≡ o
          → dead
              (hash_refresh_token crypto token)
              (refresh crypto settings draws client token store).1.sessions
            ≡ true
      with_user session none e f = ground (arith, e, f, done)
      with_user session (some user) e f = ground (
        arith,
        e,
        f,
        done,
        dead-refresh_session_ok (hash_refresh_token crypto token) draws client session user store
            result e,
      )

      go :
          (o : Option AuthSession)
          → get_by_refresh_token_hash (hash_refresh_token crypto token) store.sessions ≡ o
          → dead
              (hash_refresh_token crypto token)
              (refresh crypto settings draws client token store).1.sessions
            ≡ true
      go none e = ground (arith, e, done)
      go (some session) e = with_user session (get_by_id session.owner store.users) e refl

  -- A refresh token works once: if `refresh` gives a token pair for it, then after any calls of the
  -- service that follow, `refresh` with the same token raises the error for an invalid token.
  pub refresh-once :
      (draws later : Draws) (client other_client : Client) (token : String) (store t : Store)
      → (result : AuthResult) → (refresh crypto settings draws client token store).0 ≡ ok result
      → Reaches crypto settings (refresh crypto settings draws client token store).1 t
      → (refresh crypto settings later other_client token t).0 ≡ err invalid
  refresh-once draws later client other_client token store t result done r =
      refresh-dead later other_client token t (
        dead-Reaches crypto settings (hash_refresh_token crypto token) _ t r
          (dead-refresh_ok draws client token store result done))

  dead-logout_found :
      (draws : Draws) (token : String) (store : Store) (session : AuthSession)
      → get_by_refresh_token_hash (hash_refresh_token crypto token) store.sessions ≡ some session
      → dead (hash_refresh_token crypto token) (logout crypto settings draws token store).sessions
        ≡ true
  unfolding logout dead
  dead-logout_found draws token store session found = ground (
    arith,
    found,
    dead-revoke (hash_refresh_token crypto token) draws.revoked_at store.sessions session found,
  )

  -- `logout` ends a refresh token: if a session has the token, then after `logout` with it and any
  -- calls that follow, `refresh` with it raises the error for an invalid token.
  pub logout-refused :
      (draws later : Draws) (client : Client) (token : String) (store t : Store)
      → (session : AuthSession)
      → get_by_refresh_token_hash (hash_refresh_token crypto token) store.sessions ≡ some session
      → Reaches crypto settings (logout crypto settings draws token store) t
      → (refresh crypto settings later client token t).0 ≡ err invalid
  logout-refused draws later client token store t session found r =
      refresh-dead later client token t (
        dead-Reaches crypto settings (hash_refresh_token crypto token) _ t r
          (dead-logout_found draws token store session found))

  -- `logout_all` ends all refresh tokens of a user: if a session of the user has the token, then
  -- after `logout_all` for the user and any calls that follow, `refresh` with the token raises the
  -- error for an invalid token.
  pub logout_all-refused :
      (draws later : Draws) (client : Client) (token : String) (store t : Store)
      → (session : AuthSession)
      → get_by_refresh_token_hash (hash_refresh_token crypto token) store.sessions ≡ some session
      → Reaches crypto settings (logout_all crypto settings draws session.owner store).1 t
      → (refresh crypto settings later client token t).0 ≡ err invalid
  unfolding logout_all
  logout_all-refused draws later client token store t session found r =
      refresh-dead later client token t (
        dead-Reaches crypto settings (hash_refresh_token crypto token) _ t r (
          dead-revoke_owner (hash_refresh_token crypto token) session.owner draws.revoked_at
            store.sessions session found refl))
