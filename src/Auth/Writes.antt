-- ===== src/Auth/Writes.antt =====
-- What a call does to the store is a sequence of writes to the tables, so that a property of the
-- store which the three kinds of writes keep is kept by every call.
use research_assistant.Base.{
  ℕ, ◌≡◌, refl, subst, String, Bool, Option, none, some, leb, ◌&&◌, List, arith, ◌==◌, string_eq,
  Bool-cases, inl, inr,
}
use research_assistant.Auth.{
  User, AuthSession, Store, is_revoked, is_active_of, add_session, add_user, get_by_email,
  get_by_refresh_token_hash, get_by_id, revoke, revoke_all_for_user, update, revoked,
}
use research_assistant.Auth.Tokens.{Crypto, Settings, hash_refresh_token, verify_password}
use research_assistant.Auth.Service.{
  Draws, Client, issue_token_pair, issue_or_conflict, register, login, refresh, refresh_session,
  logout, logout_all, commit, new_session, new_user,
}
use research_assistant.Auth.History.{
  Call, registers, logs_in, refreshes, logs_out, logs_out_all, perform, Reaches, here, after,
}

-- The state `t` comes from `s` by writes.
pub data Writes (s : Store) : Store → Type 0 where
  nothing : Writes s s
  revokes :
      (p : AuthSession → Bool) (at : ℕ) (t : Store)
      → Writes s t
      → Writes s (record t { sessions = update p (revoked at) t.sessions })
  adds_session :
      (session : AuthSession) (t u : Store)
      → add_session session t ≡ some u
      → Writes s t
      → Writes s u
  adds_user :
      (user : User) (t : Store) (users : List User)
      → add_user user t.users ≡ some users
      → Writes s t
      → Writes s (record t { users = users })

module _ (crypto : Crypto) (settings : Settings) where
  Writes-issue :
      (draws : Draws) (client : Client) (user : User) (old store : Store)
      → Writes old store
      → Writes old (commit old (issue_token_pair crypto settings draws client user store)).1
  unfolding issue_token_pair
  Writes-issue draws client user old store w =
      go (add_session (new_session crypto settings draws client user) store) refl
    where
      go :
          (o : Option Store)
          → add_session (new_session crypto settings draws client user) store ≡ o
          → Writes old (commit old (issue_token_pair crypto settings draws client user store)).1
      go none e = subst (Writes old) (ground (arith, e)) nothing
      go (some t) e = subst (Writes old) (ground (arith, e)) (adds_session _ store t e w)

  Writes-issue_or_conflict :
      (draws : Draws) (client : Client) (user : User) (old store : Store)
      → Writes old store
      → Writes old (commit old (issue_or_conflict crypto settings draws client user store)).1
  unfolding issue_or_conflict issue_token_pair
  Writes-issue_or_conflict draws client user old store w =
      subst (Writes old) (ground arith) (Writes-issue draws client user old store w)

  Writes-register :
      (draws : Draws) (client : Client) (email password display_name : String)
      → (seen store : Store)
      → Writes store
          (register crypto settings draws client email password display_name seen store).1
  unfolding register
  Writes-register draws client email password display_name seen store =
      go (get_by_email email seen.users) refl
    where
      added :
          (o : Option (List User))
          → get_by_email email seen.users ≡ none
          → add_user (new_user crypto settings draws email password display_name) store.users ≡ o
          → Writes store
              (register crypto settings draws client email password display_name seen store).1
      added none e f = subst (Writes store) (ground (arith, e, f)) nothing
      added (some users) e f = subst (Writes store) (ground (arith, e, f)) (
          Writes-issue_or_conflict draws client
            (new_user crypto settings draws email password display_name) store
            (record store { users = users }) (adds_user _ store users f nothing))

      go :
          (o : Option User)
          → get_by_email email seen.users ≡ o
          → Writes store
              (register crypto settings draws client email password display_name seen store).1
      go none e =
          added (add_user (new_user crypto settings draws email password display_name) store.users)
            e refl
      go (some u) e = subst (Writes store) (ground (arith, e)) nothing

  Writes-login :
      (draws : Draws) (client : Client) (email password : String) (store : Store)
      → Writes store (login crypto settings draws client email password store).1
  unfolding login
  Writes-login draws client email password store = go (get_by_email email store.users) refl
    where
      go :
          (o : Option User)
          → get_by_email email store.users ≡ o
          → Writes store (login crypto settings draws client email password store).1
      go none e = subst (Writes store) (ground (arith, e)) nothing
      go (some user) e =
          elim (Bool-cases (verify_password crypto password user.password_hash && user.is_active)) [
            | inl good ↦
                subst (Writes store) (ground (arith, e, good))
                  (Writes-issue draws client user store store nothing)
            | inr bad ↦ subst (Writes store) (ground (arith, e, bad)) nothing
          ]

  Writes-refresh_session :
      (draws : Draws) (client : Client) (session : AuthSession) (user : User) (store : Store)
      → Writes store (refresh_session crypto settings draws client session user store).1
  unfolding refresh_session revoke revoke_all_for_user
  Writes-refresh_session draws client session user store = elim (Bool-cases (is_revoked session)) [
    | inl was ↦
        subst (Writes store) (ground (arith, was))
          (revokes (is_active_of user.user_id) draws.revoked_at store nothing)
    | inr live ↦ elim (Bool-cases (leb session.expires_at draws.checked_at)) [
      | inl over ↦ subst (Writes store) (ground (arith, live, over)) nothing
      | inr in_time ↦ subst (Writes store) (ground (arith, live, in_time)) (
          Writes-issue draws client user store _
            (revokes (λ s. s.session_id == session.session_id) draws.revoked_at store nothing))
    ]
  ]

  Writes-refresh :
      (draws : Draws) (client : Client) (token : String) (store : Store)
      → Writes store (refresh crypto settings draws client token store).1
  unfolding refresh
  Writes-refresh draws client token store =
      go (get_by_refresh_token_hash (hash_refresh_token crypto token) store.sessions) refl
    where
      with_user :
          (session : AuthSession) (o : Option User)
          → get_by_refresh_token_hash (hash_refresh_token crypto token) store.sessions
            ≡ some session
          → get_by_id session.owner store.users ≡ o
          → Writes store (refresh crypto settings draws client token store).1
      with_user session none e f = subst (Writes store) (ground (arith, e, f)) nothing
      with_user session (some user) e f = elim (Bool-cases user.is_active) [
        | inl active ↦
            subst (Writes store) (ground (arith, e, f, active))
              (Writes-refresh_session draws client session user store)
        | inr disabled ↦ subst (Writes store) (ground (arith, e, f, disabled)) nothing
      ]

      go :
          (o : Option AuthSession)
          → get_by_refresh_token_hash (hash_refresh_token crypto token) store.sessions ≡ o
          → Writes store (refresh crypto settings draws client token store).1
      go none e = subst (Writes store) (ground (arith, e)) nothing
      go (some session) e = with_user session (get_by_id session.owner store.users) e refl

  Writes-logout :
      (draws : Draws) (token : String) (store : Store)
      → Writes store (logout crypto settings draws token store)
  unfolding logout revoke
  Writes-logout draws token store =
      go (get_by_refresh_token_hash (hash_refresh_token crypto token) store.sessions) refl
    where
      go :
          (o : Option AuthSession)
          → get_by_refresh_token_hash (hash_refresh_token crypto token) store.sessions ≡ o
          → Writes store (logout crypto settings draws token store)
      go none e = subst (Writes store) (ground (arith, e)) nothing
      go (some session) e = elim (Bool-cases (is_revoked session)) [
        | inl was ↦ subst (Writes store) (ground (arith, e, was)) nothing
        | inr live ↦
            subst (Writes store) (ground (arith, e, live))
              (revokes (λ s. s.session_id == session.session_id) draws.revoked_at store nothing)
      ]

  pub Writes-perform :
      (call : Call) (store : Store) → Writes store (perform crypto settings call store)
  unfolding perform logout_all revoke_all_for_user
  Writes-perform (registers draws client email password display_name seen) store =
      Writes-register draws client email password display_name seen store
  Writes-perform (logs_in draws client email password) store =
      Writes-login draws client email password store
  Writes-perform (refreshes draws client token) store = Writes-refresh draws client token store
  Writes-perform (logs_out draws token) store = Writes-logout draws token store
  Writes-perform (logs_out_all draws user_id) store =
      revokes (is_active_of user_id) draws.revoked_at store nothing

  -- What the writes keep, every history keeps.
  pub kept-Reaches :
      (P : Store → Type 0)
      → ((s t : Store) → Writes s t → P s → P t)
      → (s t : Store) → Reaches crypto settings s t
      → P s
      → P t
  kept-Reaches P keep s _ here p = p
  kept-Reaches P keep s _ (after call t r) p =
      keep t _ (Writes-perform call t) (kept-Reaches P keep s t r p)
