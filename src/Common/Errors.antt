-- ===== src/Common/Errors.antt =====
-- src/energy_agent/core/errors.py: the errors that the modelled services raise, and what a call
-- that may raise gives: a value or an error, and the state that it left.
use mathlib.Core.Path.{◌≡◌, refl}
use mathlib.Core.Logic.{◌⊎◌, inl, inr}
use mathlib.Core.Bool.{Bool, true, false}
use mathlib.Core.Option.{Option, none, some}

-- The last seven are not of errors.py: Python's own exceptions, asyncio's cancellation, and those of
-- pydantic, SQLAlchemy and the database.
pub data Error : Type 0 where
  invalid_state_transition resource_not_found conflict invalid_request : Error
  auth_invalid_credentials auth_account_locked auth_token_invalid auth_token_expired : Error
  auth_refresh_invalid auth_refresh_expired auth_refresh_reused : Error
  auth_current_password_invalid auth_new_password_invalid rate_limit_exceeded : Error
  user_not_found user_username_exists user_email_exists user_last_admin_protected : Error
  user_self_disable_forbidden user_self_role_change_forbidden : Error
  self_review_forbidden session_not_reviewable invalid_evidence_reference : Error
  root_cause_override_reason_required case_not_found case_not_editable case_not_ready : Error
  case_state_conflict case_not_indexed idempotency_conflict : Error
  clarification_already_answered clarification_stale unknown_clarification_question : Error
  dependency_unavailable : Error
  value_error runtime_error assertion_error validation_error integrity_error cancelled : Error
  multiple_results_found : Error

pub data Outcome {ℓ} (A : Type ℓ) : Type ℓ where
  ok : A → Outcome A
  err : Error → Outcome A

abbrev pub Action : Type 0 → Type 0 → Type 0
Action S A = S → Outcome A × S

module _ {S A : Type 0} where
  abbrev pub pure : A → Action S A
  pure a s = (ok a, s)

  abbrev pub raise : Error → Action S A
  raise e s = (err e, s)

  abbrev pub gets : (S → A) → Action S A
  gets f s = (ok (f s), s)

  abbrev pub or_raise : Option A → Error → Action S A
  or_raise none e s = (err e, s)
  or_raise (some a) e s = (ok a, s)

module _ {S : Type 0} where
  abbrev pub modify : (S → S) → Action S (Unit {0})
  modify f s = (ok tt, f s)

  abbrev pub raise_if : Bool → Error → Action S (Unit {0})
  raise_if true e s = (err e, s)
  raise_if false e s = (ok tt, s)

infixl 5 ◌>>=◌ ◌>>◌
abbrev pub ◌>>=◌ : {S A B : Type 0} → Action S A → (A → Action S B) → Action S B
◌>>=◌ m f s = let (r, s') = m s in elim r [ ok a ↦ f a s' | err e ↦ (err e, s') ]

abbrev pub ◌>>◌ : {S A B : Type 0} → Action S A → Action S B → Action S B
m >> k = m >>= λ _. k

pub Outcome-cases {ℓ} :
    {A : Type ℓ} (r : Outcome A) → ((a : A) × (r ≡ ok a)) ⊎ ((e : Error) × (r ≡ err e))
Outcome-cases (ok a) = inl (a, refl)
Outcome-cases (err e) = inr (e, refl)

-- A property of what follows a call that may raise.
pub outcome-elim {ℓ ℓ' ℓ''} :
    {A : Type ℓ} {B : Type ℓ'} (P : B → Type ℓ'') (r : Outcome A) (x : Error → B) (f : A → B)
    → ((e : Error) → P (x e))
    → ((a : A) → P (f a))
    → P (elim r as (λ _. B) [ err e ↦ x e | ok a ↦ f a ])
outcome-elim P (ok a) x f p q = q a
outcome-elim P (err e) x f p q = p e
