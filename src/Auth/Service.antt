-- ===== src/Auth/Service.antt =====
-- backend/app/modules/auth/services.py: each operation is one unit of work on the store. What is not
-- committed is lost, so an operation that raises before its commit gives the store back as it was.
use research_assistant.Base.{
  ℕ, ◌+◌, String, true, Option, none, some, not, string_eq, leb, if◌then◌else◌,
}
use research_assistant.Core.Errors.{
  Result, ok, err, Exn, other, raise_insight, unauthorized, forbidden, conflict, ◌>>=◌,
}
use research_assistant.Auth.{
  User, AuthSession, Store, user_role, is_revoked, get_by_email, get_by_id,
  get_by_refresh_token_hash, revoke, revoke_all_for_user, add_user, add_session,
}
use research_assistant.Auth.Tokens.{
  Crypto, Settings, create_access_token, decode_access_token, hash_refresh_token, hash_password,
  verify_password, microseconds,
}

pub record AuthResult : Type 0 where
  pub access_token : String
  pub refresh_token : String
  pub expires_in : ℕ
  pub user : User

-- What a call of the service draws: the random ids and tokens, and the readings of the clock in
-- their order.
pub record Draws : Type 0 where
  pub user_uuid : String
  pub session_uuid : String
  pub jti : String
  pub salt : String
  pub token : String
  pub checked_at : ℕ
  pub revoked_at : ℕ
  pub issued_at : ℕ
  pub signed_at : ℕ

-- The client's header and address.
pub record Client : Type 0 where
  pub user_agent : Option String
  pub ip : Option String

-- The database's exception for a row that breaks a constraint.
abbrev pub integrity_error : Exn
integrity_error = other "IntegrityError" ""

abbrev pub or_integrity_error {ℓ} : {A : Type ℓ} → Option A → Result A
or_integrity_error none = err integrity_error
or_integrity_error (some a) = ok a

-- The unit of work: the store is the new one if the work reaches its commit.
abbrev pub commit : {A : Type 0} → Store → Result (A × Store) → Result A × Store
commit store (ok (a, store')) = (ok a, store')
commit store (err e) = (err e, store)

module _ (crypto : Crypto) (settings : Settings) where
  -- The row that `_issue_token_pair` adds.
  abbrev pub new_session : Draws → Client → User → AuthSession
  new_session draws client user = record {
    session_id = draws.session_uuid;
    owner = user.user_id;
    refresh_token_hash = hash_refresh_token crypto draws.token;
    user_agent = client.user_agent;
    ip = client.ip;
    expires_at = draws.issued_at + microseconds settings.jwt_refresh_token_ttl_seconds;
    revoked_at = none;
  }

  abbrev pub token_pair : Draws → User → AuthResult
  token_pair draws user = record {
    access_token =
        create_access_token crypto user draws.signed_at draws.jti settings.jwt_secret
          settings.jwt_algorithm settings.jwt_access_token_ttl_seconds;
    refresh_token = draws.token;
    expires_in = settings.jwt_access_token_ttl_seconds;
    user = user;
  }

  -- `_issue_token_pair`
  unfoldable pub issue_token_pair : Draws → Client → User → Store → Result (AuthResult × Store)
  unfolding add_session
  issue_token_pair draws client user store =
      or_integrity_error (add_session (new_session draws client user) store) >>= λ store'.
      ok (token_pair draws user, store')

  -- The row that `register` adds.
  abbrev pub new_user : Draws → (email password display_name : String) → User
  new_user draws email password display_name = record {
    user_id = draws.user_uuid;
    email = email;
    password_hash = hash_password crypto draws.salt password;
    display_name = display_name;
    role = user_role;
    plan_name = "free";
    is_active = true;
  }

  -- The part of `register` inside of `try`: an IntegrityError is answered with a conflict.
  unfoldable pub issue_or_conflict : Draws → Client → User → Store → Result (AuthResult × Store)
  unfolding issue_token_pair raise_insight
  issue_or_conflict draws client user store = elim (issue_token_pair draws client user store) [
    | ok pair ↦ ok pair
    | err e ↦ err (raise_insight conflict "An account with this email already exists")
  ]

  -- `seen` is the store when the e-mail is looked up, `store` when the new row is flushed: another
  -- request may commit between the two.
  unfoldable pub register :
      Draws
      → Client
      → (email password display_name : String) → (seen store : Store) → Result AuthResult × Store
  unfolding get_by_email add_user issue_or_conflict raise_insight
  register draws client email password display_name seen store =
      elim (get_by_email email seen.users) [
        | some user ↦
            (err (raise_insight conflict "An account with this email already exists"), store)
        | none ↦
            let user = new_user draws email password display_name in
            commit store (
              or_integrity_error (add_user user store.users) >>= λ users.
              issue_or_conflict draws client user (record store { users = users }))
      ]

  unfoldable pub login :
      Draws → Client → (email password : String) → Store → Result AuthResult × Store
  unfolding get_by_email issue_token_pair raise_insight
  login draws client email password store = elim (get_by_email email store.users) [
    | none ↦ (err (raise_insight unauthorized "Incorrect email or password"), store)
    | some user ↦
        if not (verify_password crypto password user.password_hash)
        then (err (raise_insight unauthorized "Incorrect email or password"), store)
        else if not user.is_active
        then (err (raise_insight forbidden "Account is disabled"), store)
        else commit store (issue_token_pair draws client user store)
  ]

  -- `refresh` behind the look-up of the session and of its active user.
  unfoldable pub refresh_session :
      Draws → Client → AuthSession → User → Store → Result AuthResult × Store
  unfolding revoke_all_for_user revoke issue_token_pair raise_insight
  refresh_session draws client session user store =
      if is_revoked session
      then (
        err (raise_insight unauthorized "Invalid refresh token"),
        record store {
          sessions = (revoke_all_for_user user.user_id draws.revoked_at store.sessions).1;
        },
      )
      else if leb session.expires_at draws.checked_at
      then (err (raise_insight unauthorized "Refresh token has expired"), store)
      else commit store (
          issue_token_pair draws client user
            (record store { sessions = revoke session.session_id draws.revoked_at store.sessions }))

  unfoldable pub refresh : Draws → Client → (token : String) → Store → Result AuthResult × Store
  unfolding get_by_refresh_token_hash get_by_id refresh_session raise_insight
  refresh draws client token store =
      elim (get_by_refresh_token_hash (hash_refresh_token crypto token) store.sessions) [
        | none ↦ (err (raise_insight unauthorized "Invalid refresh token"), store)
        | some session ↦ elim (get_by_id session.owner store.users) [
          | none ↦ (err (raise_insight unauthorized "Invalid refresh token"), store)
          | some user ↦
              if not user.is_active
              then (err (raise_insight unauthorized "Invalid refresh token"), store)
              else refresh_session draws client session user store
        ]
      ]

  unfoldable pub logout : Draws → (token : String) → Store → Store
  unfolding get_by_refresh_token_hash revoke
  logout draws token store =
      elim (get_by_refresh_token_hash (hash_refresh_token crypto token) store.sessions) [
        | none ↦ store
        | some session ↦ if is_revoked session then store else record store {
          sessions = revoke session.session_id draws.revoked_at store.sessions;
        }
      ]

  unfoldable pub logout_all : Draws → (user_id : String) → Store → ℕ × Store
  unfolding revoke_all_for_user
  logout_all draws user_id store =
      let (count, sessions) = revoke_all_for_user user_id draws.revoked_at store.sessions in
      (count, record store { sessions = sessions })

  unfoldable pub authenticate_access_token : (now : ℕ) (token : String) → Store → Result User
  unfolding get_by_id decode_access_token raise_insight
  authenticate_access_token now token store =
      decode_access_token crypto token now settings.jwt_secret settings.jwt_algorithm >>= λ payload.
      elim (crypto.parse_uuid payload.sub) [
        | none ↦ err (raise_insight unauthorized "Invalid access token")
        | some user_id ↦ elim (get_by_id user_id store.users) [
          | none ↦ err (raise_insight unauthorized "Account is disabled or no longer exists")
          | some user ↦
              if user.is_active
              then ok user
              else err (raise_insight unauthorized "Account is disabled or no longer exists")
        ]
      ]
