-- ===== src/Auth/Tables.antt =====
-- The constraints of the two tables, which every call keeps.
use research_assistant.Base.{
  ℕ, ◌≡◌, refl, ap, subst, sym, String, Bool, true, false, some, List, [], ◌∷◌, ◌++◌, arith,
  string_eq, eq_iff, map, mem, mem-append, Distinct,
}
use research_assistant.Auth.{User, AuthSession, Store, add_user, add_session, update, revoked}

abbrev pub emails : List User → List String
emails users = map (λ u. u.email) users

abbrev pub user_ids : List User → List String
user_ids users = map (λ u. u.user_id) users

abbrev pub session_ids : List AuthSession → List String
session_ids sessions = map (λ s. s.session_id) sessions

-- Each session's owner is a user.
abbrev pub Owned : List String → List AuthSession → Type 0
Owned ids [] = Unit
Owned ids (s ∷ rest) = (mem s.owner ids ≡ true) × Owned ids rest

-- Ids and e-mails are unique, and each session has an owner.
pub record IsConsistent (store : Store) : Type 0 where
  pub emails_unique : Distinct (emails store.users)
  pub user_ids_unique : Distinct (user_ids store.users)
  pub session_ids_unique : Distinct (session_ids store.sessions)
  pub owned : Owned (user_ids store.users) store.sessions

map-snoc {ℓ κ} :
    {A : Type ℓ} {B : Type κ} (f : A → B) (xs : List A) (a : A)
    → map f (xs ++ (a ∷ [])) ≡ map f xs ++ (f a ∷ [])
map-snoc f [] a = refl
map-snoc f (x ∷ xs) a = ap (λ l. f x ∷ l) (map-snoc f xs a)

Distinct-snoc :
    (xs : List String) (a : String) → mem a xs ≡ false → Distinct xs → Distinct (xs ++ (a ∷ []))
unfolding mem
Distinct-snoc [] a out d = (refl, tt)
Distinct-snoc (x ∷ xs) a out d = (
  ground (arith, mem-append x xs (a ∷ []), d.0, out, eq_iff x a, eq_iff a x),
  Distinct-snoc xs a (ground (arith, out)) d.1,
)

Owned-more :
    (ids : List String) (new : String) (xs : List AuthSession)
    → Owned ids xs
    → Owned (ids ++ (new ∷ [])) xs
Owned-more ids new [] o = tt
Owned-more ids new (x ∷ xs) o =
    (ground (arith, mem-append x.owner ids (new ∷ []), o.0), Owned-more ids new xs o.1)

Owned-snoc :
    (ids : List String) (xs : List AuthSession) (s : AuthSession)
    → mem s.owner ids ≡ true
    → Owned ids xs
    → Owned ids (xs ++ (s ∷ []))
Owned-snoc ids [] s m o = (m, tt)
Owned-snoc ids (x ∷ xs) s m o = (o.0, Owned-snoc ids xs s m o.1)

-- Revocations change neither ids nor owners.
pub session_ids-update :
    (p : AuthSession → Bool) (at : ℕ) (xs : List AuthSession)
    → session_ids (update p (revoked at) xs) ≡ session_ids xs
unfolding update
session_ids-update p at [] = refl
session_ids-update p at (x ∷ xs) = ground (arith, session_ids-update p at xs)

Owned-update :
    (ids : List String) (p : AuthSession → Bool) (at : ℕ) (xs : List AuthSession)
    → Owned ids xs
    → Owned ids (update p (revoked at) xs)
unfolding update
Owned-update ids p at [] o = tt
Owned-update ids p at (x ∷ xs) o = (ground (arith, o.0), Owned-update ids p at xs o.1)

pub update-IsConsistent :
    (store : Store) (p : AuthSession → Bool) (at : ℕ)
    → IsConsistent store
    → IsConsistent (record store { sessions = update p (revoked at) store.sessions })
update-IsConsistent store p at c = record {
  emails_unique = c.emails_unique;
  user_ids_unique = c.user_ids_unique;
  session_ids_unique =
      subst Distinct (sym (session_ids-update p at store.sessions)) c.session_ids_unique;
  owned = Owned-update (user_ids store.users) p at store.sessions c.owned;
}

pub add_session-IsConsistent :
    (session : AuthSession) (store t : Store)
    → add_session session store ≡ some t
    → IsConsistent store
    → IsConsistent t
unfolding add_session
add_session-IsConsistent session store t added c =
    let with_row : Store = record store { sessions = store.sessions ++ (session ∷ []) } in
    let same : with_row ≡ t = ground (arith, added) in
    let kept : IsConsistent with_row = record {
      emails_unique = c.emails_unique;
      user_ids_unique = c.user_ids_unique;
      session_ids_unique =
          subst Distinct (sym (map-snoc (λ s. s.session_id) store.sessions session)) (
            Distinct-snoc (session_ids store.sessions) session.session_id (ground (arith, added))
              c.session_ids_unique);
      owned =
          Owned-snoc (user_ids store.users) store.sessions session (ground (arith, added)) c.owned;
    } in
    subst IsConsistent same kept

pub add_user-IsConsistent :
    (user : User) (store : Store) (users : List User)
    → add_user user store.users ≡ some users
    → IsConsistent store
    → IsConsistent (record store { users = users })
unfolding add_user
add_user-IsConsistent user store users added c =
    let all_users : List User = store.users ++ (user ∷ []) in
    let same : all_users ≡ users = ground (arith, added) in
    let ids = sym (map-snoc (λ u. u.user_id) store.users user) in
    let kept : IsConsistent (record store { users = all_users }) = record {
      emails_unique =
          subst Distinct (sym (map-snoc (λ u. u.email) store.users user))
            (Distinct-snoc (emails store.users) user.email (ground (arith, added)) c.emails_unique);
      user_ids_unique = subst Distinct ids (
          Distinct-snoc (user_ids store.users) user.user_id (ground (arith, added))
            c.user_ids_unique);
      session_ids_unique = c.session_ids_unique;
      owned =
          subst (λ l. Owned l store.sessions) ids
            (Owned-more (user_ids store.users) user.user_id store.sessions c.owned);
    } in
    subst (λ us. IsConsistent (record store { users = us })) same kept
