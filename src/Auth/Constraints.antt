-- ===== src/Auth/Constraints.antt =====
-- Every history of the service keeps the constraints of the tables.
use research_assistant.Auth.{Store}
use research_assistant.Auth.Tokens.{Crypto, Settings}
use research_assistant.Auth.History.{Reaches}
use research_assistant.Auth.Tables.{
  IsConsistent, update-IsConsistent, add_session-IsConsistent, add_user-IsConsistent,
}
use research_assistant.Auth.Writes.{Writes, nothing, revokes, adds_session, adds_user, kept-Reaches}

Writes-IsConsistent : (s t : Store) → Writes s t → IsConsistent s → IsConsistent t
Writes-IsConsistent s _ nothing c = c
Writes-IsConsistent s _ (revokes p at t w) c =
    update-IsConsistent t p at (Writes-IsConsistent s t w c)
Writes-IsConsistent s _ (adds_session session t u added w) c =
    add_session-IsConsistent session t u added (Writes-IsConsistent s t w c)
Writes-IsConsistent s _ (adds_user user t users added w) c =
    add_user-IsConsistent user t users added (Writes-IsConsistent s t w c)

-- From a store with unique e-mails, user ids and session ids, and an owner for each session, every
-- sequence of calls of the service leads to such a store, also when requests overtake each other
-- between the look-up of an e-mail and the insertion of its user.
pub Reaches-IsConsistent :
    (crypto : Crypto) (settings : Settings) (s t : Store)
    → Reaches crypto settings s t
    → IsConsistent s
    → IsConsistent t
Reaches-IsConsistent crypto settings s t r c =
    kept-Reaches crypto settings IsConsistent Writes-IsConsistent s t r c
