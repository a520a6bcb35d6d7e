-- ===== src/Users/Invariant.antt =====
-- Sequences of calls of src/energy_agent/users/service.py.
use energy_agent_diagnosis.Common.{
  ℕ, ◌≤◌, String, Option, none, some, List, [], ◌∷◌, ◌≡◌, refl, arith, Option-cases, inl, inr,
}
use energy_agent_diagnosis.Common.Table
use energy_agent_diagnosis.Common.Table.{
  Table, get-modify, get-add, count-modify, count-add, modify_missing, Holds, Holds-modify,
  Holds-add,
}
use energy_agent_diagnosis.Users.Models.{AppUser, UserStore, user_status_eq, role_eq}
use energy_agent_diagnosis.Users.Repository.{
  is_active_admin, active_admin_count, assign, assign_status, failed, logged_in, with_password,
  next_version, ProfileUpdate,
}
use energy_agent_diagnosis.Users.Tokens.{Library, Settings}
use energy_agent_diagnosis.Users.Calls.{Call, apply, apply_all}
use energy_agent_diagnosis.Users.Steps.{
  UsersStep, same, added, profile, status, failure, success, password, version,
}
use energy_agent_diagnosis.Users.Effects.{apply-UsersStep}

abbrev admins : Table AppUser → ℕ
admins t = Table.count_where is_active_admin t

-- A change that keeps a row's role and status keeps the count.
admins-modify :
    (k : String) (f : AppUser → AppUser) (t : Table AppUser)
    → ((u : AppUser) → is_active_admin (f u) ≡ is_active_admin u)
    → admins (Table.modify k f t) ≡ admins t
admins-modify k f t keeps = elim (Option-cases (Table.get k t)) [
  | inl gone ↦ rw (modify_missing k f t gone)
  | inr (u, row) ↦
      let counted = count-modify k is_active_admin f t u row in ground (arith, counted, keeps u)
]

UsersStep-admins : (t t' : Table AppUser) → UsersStep t t' → 1 ≤ admins t → 1 ≤ admins t'
UsersStep-admins t t' same h = h
UsersStep-admins t t' (added k u) h = ground (arith, count-add k is_active_admin u t)
UsersStep-admins t t' (profile k p u row safe) h =
    ground (arith, count-modify k is_active_admin (assign p) t u row)
UsersStep-admins t t' (status k x u row safe) h =
    ground (arith, count-modify k is_active_admin (assign_status x) t u row)
UsersStep-admins t t' (failure now k) h = rw (admins-modify k (failed now) t (λ u. refl)) h
UsersStep-admins t t' (success now k) h = rw (admins-modify k (logged_in now) t (λ u. refl)) h
UsersStep-admins t t' (password now k x must) h =
    rw (admins-modify k (with_password now x must) t (λ u. refl)) h
UsersStep-admins t t' (version k) h = rw (admins-modify k next_version t (λ u. refl)) h

-- Where there is an active administrator, there is one after any calls of the services at any times,
-- failed ones included.
pub apply_all-admins :
    (lib : Library) (settings : Settings) (cs : List (ℕ × Call)) (s : UserStore)
    → 1 ≤ active_admin_count s
    → 1 ≤ active_admin_count (apply_all lib settings cs s)
unfolding apply_all
apply_all-admins lib settings [] s h = h
apply_all-admins lib settings ((now, c) ∷ cs) s h =
    let s' = apply lib settings now c s in
    apply_all-admins lib settings cs s'
      (UsersStep-admins s.users s'.users (apply-UsersStep lib settings now c s) h)

-- The token version of an account, and 0 where there is none.
abbrev pub version_of : Option AppUser → ℕ
version_of none = 0
version_of (some u) = u.token_version

modify-version :
    (k j : String) (f : AppUser → AppUser) (t : Table AppUser)
    → ((u : AppUser) → u.token_version ≤ (f u).token_version)
    → version_of (Table.get j t) ≤ version_of (Table.get j (Table.modify k f t))
modify-version k j f t grows = elim (Option-cases (Table.get j t)) [
  | inl gone ↦ ground (arith, get-modify k j f t, gone)
  | inr (u, row) ↦ ground (arith, get-modify k j f t, row, grows u)
]

assign-version : (p : ProfileUpdate) (u : AppUser) → u.token_version ≤ (assign p u).token_version
assign-version p u = ground arith

UsersStep-version :
    (j : String) (t t' : Table AppUser)
    → UsersStep t t'
    → version_of (Table.get j t) ≤ version_of (Table.get j t')
UsersStep-version j t t' same = omega arith
UsersStep-version j t t' (added k u) = ground (arith, get-add k j u t)
UsersStep-version j t t' (profile k p u row safe) =
    modify-version k j (assign p) t (assign-version p)
UsersStep-version j t t' (status k x u row safe) =
    modify-version k j (assign_status x) t (λ v. ground arith)
UsersStep-version j t t' (failure now k) = modify-version k j (failed now) t (λ v. omega arith)
UsersStep-version j t t' (success now k) = modify-version k j (logged_in now) t (λ v. omega arith)
UsersStep-version j t t' (password now k x must) =
    modify-version k j (with_password now x must) t (λ v. omega arith)
UsersStep-version j t t' (version k) = modify-version k j next_version t (λ v. omega arith)

-- No calls make an account's token version smaller.
pub apply_all-version :
    (lib : Library) (settings : Settings) (j : String) (cs : List (ℕ × Call)) (s : UserStore)
    → version_of (Table.get j s.users)
      ≤ version_of (Table.get j (apply_all lib settings cs s).users)
unfolding apply_all
apply_all-version lib settings j [] s = omega arith
apply_all-version lib settings j ((now, c) ∷ cs) s =
    let s' = apply lib settings now c s in
    omega (
      arith,
      apply_all-version lib settings j cs s',
      UsersStep-version j s.users s'.users (apply-UsersStep lib settings now c s),
    )
