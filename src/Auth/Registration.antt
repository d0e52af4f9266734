-- ===== src/Auth/Registration.antt =====
-- Registration of an e-mail that is in use.
use research_assistant.Base.{◌≡◌, String, true, Option, none, some, arith, string_eq, mem}
use research_assistant.Core.Errors.{err, Exn, raise_insight, conflict}
use research_assistant.Auth.{User, Store, add_user, get_by_email}
use research_assistant.Auth.Tokens.{Crypto, Settings}
use research_assistant.Auth.Service.{Draws, Client, register, integrity_error}
use research_assistant.Auth.Tables.{emails}

abbrev pub already_exists : Exn
unfolding raise_insight
already_exists = raise_insight conflict "An account with this email already exists"

-- The answer for an e-mail in use, by what its look-up found.
unfoldable pub taken : Option User → Exn
taken none = integrity_error
taken (some user) = already_exists

-- An e-mail in use is never registered again: `register` leaves the store as it is and raises an
-- error, the conflict if the look-up finds the e-mail, and the database's IntegrityError if another
-- request commits it between the look-up and the insertion.
pub register-taken :
    (crypto : Crypto) (settings : Settings) (draws : Draws) (client : Client)
    → (email password display_name : String) (seen store : Store)
    → mem email (emails store.users) ≡ true
    → register crypto settings draws client email password display_name seen store
      ≡ (err (taken (get_by_email email seen.users)), store)
unfolding register add_user taken
register-taken crypto settings draws client email password display_name seen store used =
    ground (arith, used)
