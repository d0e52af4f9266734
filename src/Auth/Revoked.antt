-- ===== src/Auth/Revoked.antt =====
-- A refresh token that is revoked stays revoked.
use research_assistant.Base.{
  ℕ, ◌≡◌, subst, String, Bool, true, false, none, some, List, [], ◌∷◌, ◌++◌, arith, ◌==◌, string_eq,
  Bool-cases, inl, inr, beq_refl,
}
use research_assistant.Auth.{
  AuthSession, is_revoked, first, get_by_refresh_token_hash, revoked, revoke, update,
  revoke_all_for_user, is_active_of,
}

-- The row that the query for the hash finds is there and revoked.
unfoldable pub dead : String → List AuthSession → Bool
unfolding get_by_refresh_token_hash
dead token_hash sessions = elim (get_by_refresh_token_hash token_hash sessions) [
  | none ↦ false
  | some session ↦ is_revoked session
]

pub dead-append :
    (h : String) (xs ys : List AuthSession) → dead h xs ≡ true → dead h (xs ++ ys) ≡ true
unfolding dead first get_by_refresh_token_hash
dead-append h [] ys d = ground arith
dead-append h (x ∷ xs) ys d = elim (Bool-cases (x.refresh_token_hash == h)) [
  | inl same ↦ ground (arith, same)
  | inr other ↦ ground (arith, other, dead-append h xs ys)
]

-- Setting `revoked_at` at any rows takes no revocation back.
pub dead-update :
    (h : String) (p : AuthSession → Bool) (at : ℕ) (xs : List AuthSession)
    → dead h xs ≡ true
    → dead h (update p (revoked at) xs) ≡ true
unfolding dead first get_by_refresh_token_hash update
dead-update h p at [] d = ground arith
dead-update h p at (x ∷ xs) d = ground (arith, dead-update h p at xs)

first-head {ℓ} :
    {A : Type ℓ} (p : A → Bool) (x : A) (xs : List A) (a : A)
    → first p (x ∷ xs) ≡ some a
    → p x ≡ true
    → x ≡ a
unfolding first
first-head p x xs a found holds = ground (arith, found, holds)

-- The row that is found and then revoked is found revoked.
pub dead-revoke :
    (h : String) (at : ℕ) (xs : List AuthSession) (session : AuthSession)
    → get_by_refresh_token_hash h xs ≡ some session
    → dead h (revoke session.session_id at xs) ≡ true
unfolding dead first get_by_refresh_token_hash update revoke
dead-revoke h at [] session found = ground arith
dead-revoke h at (x ∷ xs) session found = elim (Bool-cases (x.refresh_token_hash == h)) [
  | inl same ↦
      subst (λ s. dead h (revoke s.session_id at (x ∷ xs)) ≡ true)
        (first-head (λ s. s.refresh_token_hash == h) x xs session found same)
        (ground (arith, same, beq_refl x.session_id))
  | inr other ↦ ground (arith, other, dead-revoke h at xs session (ground (arith, other, found)))
]

pub dead-revoke_other :
    (h session_id : String) (at : ℕ) (xs : List AuthSession)
    → dead h xs ≡ true
    → dead h (revoke session_id at xs) ≡ true
unfolding revoke
dead-revoke_other h session_id at xs d = dead-update h (λ s. s.session_id == session_id) at xs d

pub dead-revoke_all :
    (h user_id : String) (at : ℕ) (xs : List AuthSession)
    → dead h xs ≡ true
    → dead h (revoke_all_for_user user_id at xs).1 ≡ true
unfolding revoke_all_for_user
dead-revoke_all h user_id at xs d = dead-update h (is_active_of user_id) at xs d
