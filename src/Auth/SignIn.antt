-- ===== src/Auth/SignIn.antt =====
-- Signing in: what the account and the tokens that the service gives are good for.
use research_assistant.Base.{
  ◌≡◌, String, true, false, some, List, [], ◌∷◌, ◌++◌, arith, string_eq, mem, beq_refl,
}
use research_assistant.Core.Errors.{ok, raise_insight}
use research_assistant.Auth.{User, Store, add_user, add_session, first, get_by_email}
use research_assistant.Auth.Tokens.{Crypto, Settings, verify_password}
use research_assistant.Auth.Service.{
  AuthResult, Draws, Client, issue_token_pair, issue_or_conflict, register, login, new_session,
  new_user, token_pair,
}
use research_assistant.Auth.History.{Reaches}
use research_assistant.Auth.Tables.{emails, user_ids, session_ids}
use research_assistant.Auth.Writes.{Writes, nothing, revokes, adds_session, adds_user, kept-Reaches}

-- The password library verifies the hashes that it made.
abbrev pub IsVerified : Crypto → Type 0
IsVerified crypto =
    (salt password : String)
    → crypto.argon_verify (crypto.argon_hash salt password) password ≡ some true

get_by_email-snoc :
    (users : List User) (user : User)
    → mem user.email (emails users) ≡ false
    → get_by_email user.email (users ++ (user ∷ [])) ≡ some user
unfolding get_by_email first mem
get_by_email-snoc [] user out = ground (arith, beq_refl user.email)
get_by_email-snoc (u ∷ users) user out = ground (arith, get_by_email-snoc users user)

get_by_email-append :
    (email : String) (users more : List User) (user : User)
    → get_by_email email users ≡ some user
    → get_by_email email (users ++ more) ≡ some user
unfolding get_by_email first
get_by_email-append email [] more user found = ground arith
get_by_email-append email (u ∷ users) more user found =
    ground (arith, get_by_email-append email users more user)

-- A user who is found stays found.
get_by_email-Writes :
    (email : String) (user : User) (s t : Store)
    → Writes s t
    → get_by_email email s.users ≡ some user
    → get_by_email email t.users ≡ some user
unfolding add_session add_user
get_by_email-Writes email user s _ nothing f = f
get_by_email-Writes email user s _ (revokes p at t w) f = get_by_email-Writes email user s t w f
get_by_email-Writes email user s _ (adds_session session t u added w) f =
    ground (arith, added, get_by_email-Writes email user s t w f)
get_by_email-Writes email user s _ (adds_user new t users added w) f = ground (
  arith,
  added,
  get_by_email-append email t.users (new ∷ []) user (get_by_email-Writes email user s t w f),
)

pub mem-get_by_email :
    (email : String) (users : List User) (user : User)
    → get_by_email email users ≡ some user
    → mem user.user_id (user_ids users) ≡ true
unfolding get_by_email first mem
mem-get_by_email email [] user found = ground arith
mem-get_by_email email (u ∷ users) user found =
    ground (arith, mem-get_by_email email users user, beq_refl u.user_id)

module _ (crypto : Crypto) (settings : Settings) where
  pub issue_token_pair-ok :
      (draws : Draws) (client : Client) (user : User) (store : Store)
      → mem draws.session_uuid (session_ids store.sessions) ≡ false
      → mem user.user_id (user_ids store.users) ≡ true
      → issue_token_pair crypto settings draws client user store
        ≡ ok (
          token_pair crypto settings draws user,
          record store {
            sessions = store.sessions ++ (new_session crypto settings draws client user ∷ []);
          },
        )
  unfolding issue_token_pair add_session
  issue_token_pair-ok draws client user store fresh known = ground (arith, fresh, known)

  register_found :
      (draws : Draws) (client : Client) (email password display_name : String) (seen store : Store)
      → (result : AuthResult)
      → (register crypto settings draws client email password display_name seen store).0 ≡ ok result
      → (result.user ≡ new_user crypto settings draws email password display_name)
        × (get_by_email email
              (register crypto settings draws client email password display_name seen store).1.users
            ≡ some result.user)
  unfolding register add_user issue_or_conflict issue_token_pair add_session raise_insight
  register_found draws client email password display_name seen store result done =
      let user = new_user crypto settings draws email password display_name in
      let same : result.user ≡ user = ground (arith, done) in
      (same, rw same (ground (arith, done, get_by_email-snoc store.users user)))

  login-ok :
      (draws : Draws) (client : Client) (email password : String) (store : Store) (user : User)
      → get_by_email email store.users ≡ some user
      → verify_password crypto password user.password_hash ≡ true
      → user.is_active ≡ true
      → mem draws.session_uuid (session_ids store.sessions) ≡ false
      → (login crypto settings draws client email password store).0
        ≡ ok (token_pair crypto settings draws user)
  unfolding login
  login-ok draws client email password store user found verified active fresh = ground (
    arith,
    found,
    verified,
    active,
    issue_token_pair-ok draws client user store fresh
        (mem-get_by_email email store.users user found),
  )

  -- Who registers can sign in: if `register` succeeds, then after any calls that follow, `login` with
  -- the same e-mail and password gives a token pair for the registered user, provided that the
  -- password library verifies its own hashes and that the drawn session id is not in use.
  pub register-login :
      (draws later : Draws) (client other_client : Client) (email password display_name : String)
      → (seen store t : Store) (result : AuthResult) → IsVerified crypto
      → (register crypto settings draws client email password display_name seen store).0 ≡ ok result
      → Reaches crypto settings
          (register crypto settings draws client email password display_name seen store).1
          t
      → mem later.session_uuid (session_ids t.sessions) ≡ false
      → (login crypto settings later other_client email password t).0
        ≡ ok (token_pair crypto settings later result.user)
  register-login draws later client other_client email password display_name seen store t result v
        done r fresh =
      let (same, found) =
        register_found draws client email password display_name seen store result done in
      let found' =
        kept-Reaches crypto settings (λ s. get_by_email email s.users ≡ some result.user)
          (get_by_email-Writes email result.user) _ t r found in
      login-ok later other_client email password t result.user found'
        (ground (arith, same, v draws.salt password)) (ground (arith, same)) fresh
