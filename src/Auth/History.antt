-- ===== src/Auth/History.antt =====
-- The histories of the store: any sequence of calls of the service, whatever each answers.
use research_assistant.Base.{String}
use research_assistant.Auth.{Store}
use research_assistant.Auth.Tokens.{Crypto, Settings}
use research_assistant.Auth.Service.{Draws, Client, register, login, refresh, logout, logout_all}

pub data Call : Type 0 where
  registers : Draws → Client → (email password display_name : String) → (seen : Store) → Call
  logs_in : Draws → Client → (email password : String) → Call
  refreshes : Draws → Client → (token : String) → Call
  logs_out : Draws → (token : String) → Call
  logs_out_all : Draws → (user_id : String) → Call

module _ (crypto : Crypto) (settings : Settings) where
  unfoldable pub perform : Call → Store → Store
  perform (registers draws client email password display_name seen) store =
      (register crypto settings draws client email password display_name seen store).1
  perform (logs_in draws client email password) store =
      (login crypto settings draws client email password store).1
  perform (refreshes draws client token) store =
      (refresh crypto settings draws client token store).1
  perform (logs_out draws token) store = logout crypto settings draws token store
  perform (logs_out_all draws user_id) store = (logout_all crypto settings draws user_id store).1

  -- What calls make of the store `s`.
  pub data Reaches (s : Store) : Store → Type 0 where
    here : Reaches s s
    after : (call : Call) (t : Store) → Reaches s t → Reaches s (perform call t)
