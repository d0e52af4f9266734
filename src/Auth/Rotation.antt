-- ===== src/Auth/Rotation.antt =====
-- Rotation: a refresh token that was used, revoked or logged out stays refused.
use research_assistant.Base.{◌≡◌, String, true, [], ◌∷◌, arith, string_eq}
use research_assistant.Core.Errors.{Exn, raise_insight, unauthorized}
use research_assistant.Auth.{Store, add_session}
use research_assistant.Auth.Tokens.{Crypto, Settings}
use research_assistant.Auth.Writes.{Writes, nothing, revokes, adds_session, adds_user, kept-Reaches}
use research_assistant.Auth.History.{Reaches}
use research_assistant.Auth.Revoked.{dead, dead-append, dead-update}

-- The one error for a token that is not accepted.
abbrev pub invalid : Exn
unfolding raise_insight
invalid = raise_insight unauthorized "Invalid refresh token"

dead-Writes :
    (h : String) (s t : Store) → Writes s t → dead h s.sessions ≡ true → dead h t.sessions ≡ true
unfolding add_session
dead-Writes h s _ nothing d = d
dead-Writes h s _ (revokes p at t w) d = dead-update h p at t.sessions (dead-Writes h s t w d)
dead-Writes h s _ (adds_session session t u added w) d =
    ground (arith, added, dead-append h t.sessions (session ∷ []) (dead-Writes h s t w d))
dead-Writes h s _ (adds_user user t users added w) d = dead-Writes h s t w d

pub dead-Reaches :
    (crypto : Crypto) (settings : Settings) (h : String) (s t : Store)
    → Reaches crypto settings s t
    → dead h s.sessions ≡ true
    → dead h t.sessions ≡ true
dead-Reaches crypto settings h s t r d =
    kept-Reaches crypto settings (λ u. dead h u.sessions ≡ true) (dead-Writes h) s t r d
