-- ===== src/Auth/Family.antt =====
-- `revoke_all_for_user`, and the answer of `refresh` to a token that was revoked.
use research_assistant.Base.{
  ℕ, ◌≡◌, String, Bool, Option, none, some, map, [], ◌==◌, string_eq, not, keep_if, if◌then◌else◌,
}
use research_assistant.Auth.{AuthSession, Store, is_active_of}

-- The sessions that are not the user's.
abbrev pub of_others : String → AuthSession → Bool
of_others user_id session = not (session.owner == user_id)

-- When a session ended: as before if it had ended, at the given time if it was a live one of the user.
abbrev pub ended_at : (user_id : String) → ℕ → (owner : String) → Option ℕ → Option ℕ
ended_at user_id at owner (some earlier) = some earlier
ended_at user_id at owner none = if owner == user_id then some at else none

-- The row of a session behind the end of all sessions of a user: each column but `revoked_at` is as it
-- was.
abbrev pub ended : (user_id : String) → ℕ → AuthSession → AuthSession
ended user_id at session = record {
  session_id = session.session_id;
  owner = session.owner;
  refresh_token_hash = session.refresh_token_hash;
  user_agent = session.user_agent;
  ip = session.ip;
  expires_at = session.expires_at;
  revoked_at = ended_at user_id at session.owner session.revoked_at;
}

-- The user's live sessions have ended at the time, and nothing else has changed: not the users, not the
-- other columns, and not the sessions of others or those that had ended before.
pub record IsEndedFor (user_id : String) (at : ℕ) (before behind : Store) : Type 0 where
  pub users_same : behind.users ≡ before.users
  pub rows : behind.sessions ≡ map (ended user_id at) before.sessions
  pub none_active : keep_if (is_active_of user_id) behind.sessions ≡ []
  pub others_same :
      keep_if (of_others user_id) behind.sessions ≡ keep_if (of_others user_id) before.sessions
