-- ===== src/Auth.antt =====
-- backend/app/modules/auth/models.py and repositories.py: the tables of users and of sessions, and
-- the queries on them. A table is the list of its rows in the order of their insertion. Ids are
-- the strings of UUIDs, times are microseconds.
pub mod Tokens
pub mod Service
pub mod History
pub mod Revoked
pub mod Rotation
pub mod Refused
pub mod Family
pub mod Tables
pub mod Writes
pub mod Constraints
pub mod SignIn
pub mod Access
pub mod Registration
use research_assistant.Base.{
  ℕ, zero, suc, String, Bool, true, false, Option, none, some, List, [], ◌∷◌, ◌++◌, map, not, ◌&&◌,
  ◌||◌, ◌==◌, string_eq, mem, keep_if, length, if◌then◌else◌,
}

pub record User : Type 0 where
  pub user_id : String
  pub email : String
  pub password_hash : String
  pub display_name : String
  pub role : String
  pub plan_name : String
  pub is_active : Bool

pub record AuthSession : Type 0 where
  pub session_id : String
  pub owner : String
  pub refresh_token_hash : String
  pub user_agent : Option String
  pub ip : Option String
  pub expires_at : ℕ
  pub revoked_at : Option ℕ

-- What is committed.
pub record Store : Type 0 where
  pub users : List User
  pub sessions : List AuthSession

-- `UserRole.USER.value`
abbrev pub user_role : String
user_role = "user"

-- `session.revoked_at is not None`
abbrev pub is_revoked : AuthSession → Bool
is_revoked session = elim session.revoked_at [ none ↦ false | some at ↦ true ]

-- The query's first row.
unfoldable pub first {ℓ} : {A : Type ℓ} → (A → Bool) → List A → Option A
first p [] = none
first p (row ∷ rows) = let rest = first p rows in if p row then some row else rest

unfoldable pub get_by_email : String → List User → Option User
unfolding first
get_by_email email users = first (λ user. user.email == email) users

-- `BaseRepository.get` of `UserRepository`
unfoldable pub get_by_id : String → List User → Option User
unfolding first
get_by_id user_id users = first (λ user. user.user_id == user_id) users

unfoldable pub get_by_refresh_token_hash : String → List AuthSession → Option AuthSession
unfolding first
get_by_refresh_token_hash token_hash sessions =
    first (λ session. session.refresh_token_hash == token_hash) sessions

-- An UPDATE: each row for which the condition holds is changed.
unfoldable pub update {ℓ} : {A : Type ℓ} → (A → Bool) → (A → A) → List A → List A
update p change rows = map (λ row. if p row then change row else row) rows

abbrev pub revoked : ℕ → AuthSession → AuthSession
revoked at session = record session { revoked_at = some at }

-- `SessionRepository.revoke`
unfoldable pub revoke : String → ℕ → List AuthSession → List AuthSession
unfolding update
revoke session_id at sessions =
    update (λ session. session.session_id == session_id) (revoked at) sessions

-- The rows that `revoke_all_for_user` changes.
abbrev pub is_active_of : String → AuthSession → Bool
is_active_of user_id session = session.owner == user_id && not (is_revoked session)

-- `revoke_all_for_user`: the number of rows changed, and the table.
unfoldable pub revoke_all_for_user : String → ℕ → List AuthSession → ℕ × List AuthSession
unfolding update keep_if
revoke_all_for_user user_id at sessions = (
  length (keep_if (is_active_of user_id) sessions),
  update (is_active_of user_id) (revoked at) sessions,
)

-- The flush of a new row. None stands for an `IntegrityError`: the id or the e-mail is in use.
unfoldable pub add_user : User → List User → Option (List User)
unfolding mem
add_user user users =
    if mem user.user_id (map (λ u. u.user_id) users) || mem user.email (map (λ u. u.email) users)
    then none
    else some (users ++ (user ∷ []))

-- None stands for an `IntegrityError`: the id is in use, or no user has the id of the owner.
unfoldable pub add_session : AuthSession → Store → Option Store
unfolding mem
add_session session store =
    if mem session.session_id (map (λ s. s.session_id) store.sessions)
      || not (mem session.owner (map (λ u. u.user_id) store.users))
    then none
    else some (record store { sessions = store.sessions ++ (session ∷ []) })
