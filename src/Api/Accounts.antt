-- ===== src/Api/Accounts.antt =====
-- backend/app/modules/auth/router.py and schemas.py. The column created_at of a user is not kept.
use research_assistant.Base.{
  ℕ, ◌++◌, String, Bool, Option, none, some, List, [], ◌∷◌, ◌||◌, ◌==◌, string_eq, if◌then◌else◌,
}
use research_assistant.Base.Text.{strip}
use research_assistant.Core.Errors.{Result, ok, err, other, Invalid, ◌>>=◌}
use research_assistant.Auth.{User, Store}
use research_assistant.Auth.Tokens.{Crypto, Settings}
use research_assistant.Auth.Service.{
  AuthResult, Draws, Client, register, login, refresh, logout, logout_all,
}
use research_assistant.Api.{
  Credentials, get_auth_service, get_current_user, behind, bounded, validated, invalid,
}

pub record UserOut : Type 0 where
  pub user_id : String
  pub email : String
  pub display_name : String
  pub role : String
  pub plan_name : String
  pub is_active : Bool

pub record TokenPair : Type 0 where
  pub access_token : String
  pub refresh_token : String
  pub token_type : String
  pub expires_in : ℕ
  pub user : UserOut

-- `str` methods, and the library's check of an e-mail address, which gives it in its normal form.
pub record Texts : Type 0 where
  pub lower : String → String
  pub is_digit : String → Bool
  pub is_alpha : String → Bool
  pub valid_email : String → Option String

-- `UserOut.model_validate`; `role` is one of two words.
unfoldable pub user_out : User → Result UserOut
user_out user =
    if user.role == "user" || user.role == "admin"
    then ok (record {
      user_id = user.user_id;
      email = user.email;
      display_name = user.display_name;
      role = user.role;
      plan_name = user.plan_name;
      is_active = user.is_active;
    })
    else err (other "ValidationError" "Input should be 'user' or 'admin'")

-- `_to_token_pair`
unfoldable pub to_token_pair : AuthResult → Result TokenPair
unfolding user_out
to_token_pair result = user_out result.user >>= λ user. ok (record {
  access_token = result.access_token;
  refresh_token = result.refresh_token;
  token_type = "bearer";
  expires_in = result.expires_in;
  user = user;
})

module _ (texts : Texts) where
  -- The errors of `email`, and `_normalize_email`.
  unfoldable pub email_errors : String → List Invalid
  email_errors email = elim (texts.valid_email email) [
    | none ↦ invalid "email" "value_error" "value is not a valid email address" ∷ []
    | some normal ↦ []
  ]

  unfoldable pub normalize_email : String → String
  unfolding strip
  normalize_email email = elim (texts.valid_email email) [
    | none ↦ email
    | some normal ↦ texts.lower (strip normal)
  ]

  -- `_reject_weak_password`, which runs if the length is right.
  unfoldable pub password_errors : String → List Invalid
  unfolding bounded
  password_errors password = elim (bounded "password" 8 128 password) [
    | e ∷ errors ↦ e ∷ errors
    | [] ↦
        if texts.is_digit password || texts.is_alpha password
        then invalid "password" "value_error" "Value error, password must contain mixed characters"
          ∷ []
        else []
  ]

  module _ (crypto : Crypto) where
    -- A service's answer, shown as a token pair.
    abbrev show_pair : Result AuthResult × Store → Result TokenPair × Store
    show_pair (outcome, store) = (outcome >>= to_token_pair, store)

    -- `POST /auth/register`
    unfoldable pub post_register :
        (auth_service : Option Settings)
        → Draws
        → Client
        → (email password display_name : String) → (seen store : Store) → Result TokenPair × Store
    unfolding get_auth_service validated email_errors password_errors bounded register
        normalize_email to_token_pair
    post_register auth_service draws client email password display_name seen store =
        behind (get_auth_service texts.lower crypto auth_service) store λ settings.
          behind
            (validated
              (email_errors email
                ++ password_errors password
                ++ bounded "display_name" 1 80 display_name)
              (normalize_email email))
            store
            λ normal.
              show_pair
                (register crypto settings draws client normal password display_name seen store)

    -- `POST /auth/login`
    unfoldable pub post_login :
        (auth_service : Option Settings)
        → Draws
        → Client
        → (email password : String) → Store
        → Result TokenPair × Store
    unfolding get_auth_service validated email_errors bounded login normalize_email to_token_pair
    post_login auth_service draws client email password store =
        behind (get_auth_service texts.lower crypto auth_service) store λ settings.
          behind
            (validated (email_errors email ++ bounded "password" 1 128 password)
              (normalize_email email))
            store λ normal. show_pair (login crypto settings draws client normal password store)

    -- `POST /auth/refresh`
    unfoldable pub post_refresh :
        (auth_service : Option Settings)
        → Draws
        → Client
        → (token : String) → Store
        → Result TokenPair × Store
    unfolding get_auth_service validated bounded refresh to_token_pair
    post_refresh auth_service draws client token store =
        behind (get_auth_service texts.lower crypto auth_service) store λ settings.
          behind (validated (bounded "refresh_token" 16 512 token) token) store
            λ valid. show_pair (refresh crypto settings draws client valid store)

    -- `POST /auth/logout`
    unfoldable pub post_logout :
        (auth_service : Option Settings)
        → Draws
        → (token : String) → Store
        → Result (Unit {0}) × Store
    unfolding get_auth_service validated bounded logout
    post_logout auth_service draws token store =
        behind (get_auth_service texts.lower crypto auth_service) store λ settings.
          behind (validated (bounded "refresh_token" 16 512 token) token) store
            λ valid. (ok tt, logout crypto settings draws valid store)

    -- `POST /auth/logout-all`
    unfoldable pub post_logout_all :
        (auth_service : Option Settings)
        → Draws
        → Option Credentials
        → (now : ℕ) → Store
        → Result (Unit {0}) × Store
    unfolding get_auth_service get_current_user logout_all
    post_logout_all auth_service draws given now store =
        behind (get_auth_service texts.lower crypto auth_service) store λ settings.
          behind (get_current_user texts.lower crypto auth_service given now store) store
            λ user. (ok tt, (logout_all crypto settings draws user.user_id store).1)

    -- `GET /auth/me`
    unfoldable pub get_me :
        (auth_service : Option Settings) → Option Credentials → (now : ℕ) → Store → Result UserOut
    unfolding get_current_user user_out
    get_me auth_service given now store =
        get_current_user texts.lower crypto auth_service given now store >>= λ user. user_out user
