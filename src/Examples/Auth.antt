-- ===== src/Examples/Auth.antt =====
-- Calls of the session service with a toy cryptography.
use Prim.Native.String.{◌++◌ as cat}
use research_assistant.Base.{
  ℕ, ◌≡◌, refl, String, true, false, Option, none, some, [], ◌∷◌, arith, mem, ◌==◌, string_eq,
  beq_refl, keep_if, map,
}
use research_assistant.Core.Errors.{ok, err}
use research_assistant.Auth.{
  User, AuthSession, Store, first, get_by_email, get_by_id, get_by_refresh_token_hash, update,
  revoke, revoke_all_for_user, add_user, add_session,
}
use research_assistant.Auth.Tokens.{Crypto, Settings, create_access_token}
use research_assistant.Auth.Service.{
  Draws, Client, issue_token_pair, issue_or_conflict, register, login, refresh, refresh_session,
  logout, logout_all, token_pair, new_user, authenticate_access_token,
}
use research_assistant.Auth.History.{refreshes, logs_out_all, perform, here, after}
use research_assistant.Auth.Rotation.{invalid}
use research_assistant.Auth.Refused.{refresh-once, logout-refused}
use research_assistant.Auth.Tables.{IsConsistent}
use research_assistant.Auth.Constraints.{Reaches-IsConsistent}
use research_assistant.Auth.SignIn.{IsVerified, register-login}
use research_assistant.Auth.Access.{IsSigned, login-authenticate_access_token, login-refresh}
use research_assistant.Auth.Registration.{register-taken, taken}

abbrev pub crypto : Crypto
crypto = record {
  argon_hash = λ salt password. cat "argon2id:" password;
  argon_verify = λ password_hash password. some (password_hash == cat "argon2id:" password);
  sha256 = λ token. cat "sha:" token;
  jwt_encode = λ claims secret algorithm. claims.sub;
  jwt_decode =
      λ token secret algorithms now. some (record { sub = token; token_type = some "access" });
  parse_uuid = λ text. some text;
}

abbrev pub settings : Settings
settings = record {
  jwt_secret = "secret";
  jwt_algorithm = "HS256";
  jwt_access_token_ttl_seconds = 900;
  jwt_refresh_token_ttl_seconds = 1209600;
}

-- The draws of a call at the time `now`.
abbrev draws : (user_uuid session_uuid token : String) → ℕ → Draws
draws user_uuid session_uuid token now = record {
  user_uuid = user_uuid;
  session_uuid = session_uuid;
  jti = "nonce";
  salt = "salt";
  token = token;
  checked_at = now;
  revoked_at = now;
  issued_at = now;
  signed_at = now;
}

abbrev client : Client
client = record { user_agent = some "browser"; ip = none }

abbrev pub ada : User
ada = record {
  user_id = "u1";
  email = "ada@example.org";
  password_hash = "argon2id:lovelace";
  display_name = "Ada";
  role = "user";
  plan_name = "free";
  is_active = true;
}

abbrev session : (session_id token_hash : String) → Option ℕ → AuthSession
session session_id token_hash at = record {
  session_id = session_id;
  owner = "u1";
  refresh_token_hash = token_hash;
  user_agent = none;
  ip = none;
  expires_at = 1000;
  revoked_at = at;
}

abbrev pub store : Store
store = record {
  users = ada ∷ [];
  sessions = session "s1" "sha:t1" none ∷ session "s2" "sha:t2" (some 5) ∷ [];
}

program : Unit {0}
unfolding register login refresh refresh_session logout logout_all issue_token_pair
    issue_or_conflict get_by_email get_by_id get_by_refresh_token_hash first update revoke
    revoke_all_for_user add_user add_session mem keep_if create_access_token
program = tt

abbrev second : Draws
second = draws "u2" "s3" "t3" 10

abbrev third : Draws
third = draws "u3" "s4" "t4" 20

refresh-t1 :
    (refresh crypto settings second client "t1" store).0
    ≡ ok (token_pair crypto settings second ada)
unfolding program
refresh-t1 = refl

refresh-once_example :
    (refresh crypto settings third client "t1" (
      perform crypto settings
        (logs_out_all second "u1")
        (refresh crypto settings second client "t1" store).1)).0
    ≡ err invalid
refresh-once_example =
    refresh-once crypto settings second third client client "t1" store _
      (token_pair crypto settings second ada) refresh-t1 (after (logs_out_all second "u1") _ here)

found-t1 : get_by_refresh_token_hash "sha:t1" store.sessions ≡ some (session "s1" "sha:t1" none)
unfolding program
found-t1 = refl

logout-refused_example :
    (refresh crypto settings third client "t1" (logout crypto settings second "t1" store)).0
    ≡ err invalid
logout-refused_example =
    logout-refused crypto settings second third client "t1" store _ (session "s1" "sha:t1" none)
      found-t1 here

IsConsistent-store : IsConsistent store
unfolding mem
IsConsistent-store = record {
  emails_unique = (refl, tt);
  user_ids_unique = (refl, tt);
  session_ids_unique = (refl, (refl, tt));
  owned = (refl, (refl, tt));
}

Reaches-IsConsistent_example :
    IsConsistent (perform crypto settings (refreshes second client "t1") store)
Reaches-IsConsistent_example =
    Reaches-IsConsistent crypto settings store _ (after (refreshes second client "t1") store here)
      IsConsistent-store

verified : IsVerified crypto
verified salt password = ground (arith, beq_refl (cat "argon2id:" password))

register-bob :
    (register crypto settings second client "bob@example.org" "builder" "Bob" store store).0
    ≡ ok (
        token_pair crypto settings second
          (new_user crypto settings second "bob@example.org" "builder" "Bob"))
unfolding program
register-bob = refl

fresh-s4 :
    mem "s4" (
      map
        (λ s. s.session_id)
        (register crypto settings second client "bob@example.org" "builder" "Bob" store
          store).1.sessions)
    ≡ false
unfolding program
fresh-s4 = refl

register-login_example :
    (login crypto settings third client "bob@example.org" "builder"
      (register crypto settings second client "bob@example.org" "builder" "Bob" store store).1).0
    ≡ ok (
        token_pair crypto settings third
          (new_user crypto settings second "bob@example.org" "builder" "Bob"))
register-login_example =
    register-login crypto settings second third client client "bob@example.org" "builder" "Bob"
      store store _ _ verified register-bob here fresh-s4

signed : IsSigned crypto settings
signed claims now access from until = refl

login-ada :
    (login crypto settings second client "ada@example.org" "lovelace" store).0
    ≡ ok (token_pair crypto settings second ada)
unfolding program
login-ada = refl

login-authenticate_access_token_example :
    authenticate_access_token crypto settings 50
      (token_pair crypto settings second ada).access_token
      (login crypto settings second client "ada@example.org" "lovelace" store).1
    ≡ ok ada
login-authenticate_access_token_example =
    login-authenticate_access_token crypto settings second client "ada@example.org" "lovelace" store
      (token_pair crypto settings second ada) 50 signed IsConsistent-store login-ada refl
      (omega arith) (omega arith)

unknown-t3 : get_by_refresh_token_hash "sha:t3" store.sessions ≡ none
unfolding program
unknown-t3 = refl

unused-s4 :
    mem "s4" (
      map
        (λ s. s.session_id)
        (login crypto settings second client "ada@example.org" "lovelace" store).1.sessions)
    ≡ false
unfolding program
unused-s4 = refl

login-refresh_example :
    (refresh crypto settings third client "t3"
      (login crypto settings second client "ada@example.org" "lovelace" store).1).0
    ≡ ok (token_pair crypto settings third ada)
login-refresh_example =
    login-refresh crypto settings second third client client "ada@example.org" "lovelace" store
      (token_pair crypto settings second ada) IsConsistent-store login-ada unknown-t3 (omega arith)
      unused-s4

used-ada : mem "ada@example.org" (map (λ u. u.email) store.users) ≡ true
unfolding program
used-ada = refl

abbrev empty_store : Store
empty_store = record { users = []; sessions = [] }

register-taken_example :
    register crypto settings second client "ada@example.org" "pass" "Ada" empty_store store
    ≡ (err (taken (get_by_email "ada@example.org" empty_store.users)), store)
register-taken_example =
    register-taken crypto settings second client "ada@example.org" "pass" "Ada" empty_store store
      used-ada
