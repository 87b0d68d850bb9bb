-- ===== src/Access/Gate/Allowed.antt =====
-- About the calls that `AuthGate.authorize` lets through (src/takler/server/auth.py).
use Prim.Native.String.{String}
use text.Mathlib.Text.{◌==◌ as str_eq}
use text.Mathlib.TextEquality.{eq_iff}
use mathlib.Core.Option.{some-ne-none}
use takler.Prelude.{
  ◌≡◌, ◌≢◌, ◌↔◌, ◌⊎◌, inl, inr, refl, sym, ◌∙◌, Bool, true, false, ◌||◌, List, [], ◌∷◌, Option,
  none, some, is_some, Bool-cases, arith,
}
use takler.Zombie.{AuthMode, enabled, disabled}
use takler.Access.{
  CredentialFile, CredentialFileContent, CredentialStore, Reads, read, is_in, verify_secret,
  is_whitelisted, verdict, check_files, authorize_operator,
}
use takler.Access.Gate.{
  PrivilegeLevel, child, operator, public, privilege_for_method, CallCredentials, look_up,
  or_operator, first_of, privilege_by_method, query_privilege_by_method, authorize_level, authorize,
}

-- The text is one of the list.
abbrev pub Has : String → List String → Type 0
Has s [] = ⊥
Has s (t ∷ ts) = (s ≡ t) ⊎ Has s ts

is_in-Has : (s : String) (ts : List String) → is_in s ts ≡ true → Has s ts
is_in-Has s [] h = ground arith
is_in-Has s (t ∷ ts) h = elim (Bool-cases (str_eq s t)) [
  | inl e ↦ inl ((eq_iff s t).0 e)
  | inr e ↦ inr (is_in-Has s ts (rw e at h))
]

Has-is_in : (s : String) (ts : List String) → Has s ts → is_in s ts ≡ true
Has-is_in s [] h = absurd h
Has-is_in s (t ∷ ts) (inl e) = rw ((eq_iff s t).1 e) refl
Has-is_in s (t ∷ ts) (inr m) = elim (Bool-cases (str_eq s t)) [
  | inl e ↦ rw e refl
  | inr e ↦ rw e (Has-is_in s ts m)
]

verify_secret-is_in : (s : String) (ts : List String) → verify_secret s ts ≡ is_in s ts
unfolding verify_secret
verify_secret-is_in s [] = refl
verify_secret-is_in s (t ∷ ts) = rw (verify_secret-is_in s ts) refl

verdict-none :
    (unreadable configured verified whitelisted : Bool)
    → verdict unreadable configured verified whitelisted ≡ none
    → (unreadable ≡ false) × (configured ≡ true) × (verified ≡ true) × (whitelisted ≡ true)
unfolding verdict
verdict-none unreadable configured verified whitelisted h = ground arith

either_false : (a b : Bool) → a || b ≡ false → (a ≡ false) × (b ≡ false)
either_false a b h = ground arith

whitelisted_cases :
    (user : String) (content : CredentialFileContent)
    → is_whitelisted user content ≡ true
    → (content.configured ≡ false) ⊎ Has user content.values
whitelisted_cases user content h = elim (Bool-cases content.configured) [
  | inl e ↦ inr (is_in-Has user content.values (simp e at h))
  | inr e ↦ inl e
]

whitelisted_of :
    (user : String) (content : CredentialFileContent)
    → (content.configured ≡ false) ⊎ Has user content.values
    → is_whitelisted user content ≡ true
whitelisted_of user content (inl e) = simp e refl
whitelisted_of user content (inr m) = elim (Bool-cases content.configured) [
  | inl e ↦ simp e (Has-is_in user content.values m)
  | inr e ↦ simp e refl
]

-- The level of the first entry for a method, or that there is no entry.
abbrev pub IsListed : String → List (String × PrivilegeLevel) → PrivilegeLevel → Type 0
IsListed m [] level = ⊥
IsListed m ((n, l) ∷ rest) level = ((m ≡ n) × (level ≡ l)) ⊎ ((m ≢ n) × IsListed m rest level)

abbrev pub IsUnlisted : String → List (String × PrivilegeLevel) → Type 0
IsUnlisted m [] = Unit
IsUnlisted m ((n, l) ∷ rest) = (m ≢ n) × IsUnlisted m rest

abbrev pub IsOrOperator : String → List (String × PrivilegeLevel) → PrivilegeLevel → Type 0
IsOrOperator m table level = IsListed m table level ⊎ (IsUnlisted m table × (level ≡ operator))

abbrev pub IsLevel : String → Option (List (String × PrivilegeLevel)) → PrivilegeLevel → Type 0
IsLevel m (some table) level = IsOrOperator m table level
IsLevel m none level =
    IsListed m query_privilege_by_method level
    ⊎ (IsUnlisted m query_privilege_by_method × IsOrOperator m privilege_by_method level)

abbrev Looks : String → List (String × PrivilegeLevel) → Option PrivilegeLevel → Type 0
Looks m table none = IsUnlisted m table
Looks m table (some level) = IsListed m table level

str_eq-ne : (s t : String) → str_eq s t ≡ false → s ≢ t
str_eq-ne s t h e = let k = (eq_iff s t).1 e in cc

look_up-Looks :
    (m : String) (table : List (String × PrivilegeLevel)) → Looks m table (look_up m table)
look_up-Looks m [] = tt
look_up-Looks m ((n, l) ∷ rest) = elim (Bool-cases (str_eq m n)) [
  | inl e ↦ rw e (inl ((eq_iff m n).0 e, refl))
  | inr e ↦ rw e (passed (look_up m rest) (str_eq-ne m n e) (look_up-Looks m rest))
]
  where
    passed : (o : Option PrivilegeLevel) → m ≢ n → Looks m rest o → Looks m ((n, l) ∷ rest) o
    passed none d h = (d, h)
    passed (some level) d h = inr (d, h)

or_operator-IsOrOperator :
    (m : String) (table : List (String × PrivilegeLevel)) (o : Option PrivilegeLevel)
    → Looks m table o
    → IsOrOperator m table (or_operator o)
or_operator-IsOrOperator m table none h = inr (h, refl)
or_operator-IsOrOperator m table (some level) h = inl h

first_of-IsLevel :
    (m : String) (o o' : Option PrivilegeLevel)
    → Looks m query_privilege_by_method o
    → Looks m privilege_by_method o'
    → IsLevel m none (or_operator (first_of o o'))
first_of-IsLevel m (some level) o' h k = inl h
first_of-IsLevel m none o' h k = inr (h, or_operator-IsOrOperator m privilege_by_method o' k)

privilege_for_method-IsLevel :
    (m : String) (table : Option (List (String × PrivilegeLevel)))
    → IsLevel m table (privilege_for_method m table)
unfolding privilege_for_method
privilege_for_method-IsLevel m (some table) =
    or_operator-IsOrOperator m table (look_up m table) (look_up-Looks m table)
privilege_for_method-IsLevel m none =
    first_of-IsLevel m (look_up m query_privilege_by_method) (look_up m privilege_by_method)
      (look_up-Looks m query_privilege_by_method) (look_up-Looks m privilege_by_method)

module _ (strip : String → String) (d : Reads) (store : CredentialStore) where
  abbrev first_secret : CredentialFileContent × CredentialFile
  first_secret = read strip d.first_secret store.secret

  abbrev first_whitelist : CredentialFileContent × CredentialFile
  first_whitelist = read strip d.first_whitelist store.whitelist

  abbrev secrets : CredentialFileContent
  secrets = (read strip d.secret first_secret.1).0

  abbrev users : CredentialFileContent
  users = (read strip d.whitelist first_whitelist.1).0

  -- Both files were read, there is a file of secrets, the secret is one of it, and the user is one of the
  -- whitelist, if there is one.
  abbrev pub MayOperate : Option String → Option String → Type 0
  MayOperate none user = ⊥
  MayOperate (some s) none = ⊥
  MayOperate (some s) (some u) =
      (first_secret.0.is_error ≡ false)
      × (first_whitelist.0.is_error ≡ false)
      × (first_secret.0.configured ≡ true)
      × Has s secrets.values
      × ((users.configured ≡ false) ⊎ Has u users.values)

  -- What a call needs at its level, in the mode.
  abbrev pub IsAllowed : AuthMode → PrivilegeLevel → CallCredentials → Type 0
  IsAllowed mode public c = Unit
  IsAllowed mode child c = (mode ≡ disabled) ⊎ (is_some c.job_password ≡ true)
  IsAllowed mode operator c = (mode ≡ disabled) ⊎ MayOperate c.secret c.user

  check_files-MayOperate :
      (s u : String) → (check_files strip d s u store).0 ≡ none → MayOperate (some s) (some u)
  unfolding check_files
  check_files-MayOperate s u h =
      let (e, c, v, w) =
        verdict-none (first_secret.0.is_error || first_whitelist.0.is_error)
          first_secret.0.configured (verify_secret s secrets.values) (is_whitelisted u users) h in
      let (a, b) = either_false first_secret.0.is_error first_whitelist.0.is_error e in
      (
        a,
        b,
        c,
        is_in-Has s secrets.values (sym (verify_secret-is_in s secrets.values) ∙ v),
        whitelisted_cases u users w,
      )

  MayOperate-check_files :
      (s u : String) → MayOperate (some s) (some u) → (check_files strip d s u store).0 ≡ none
  unfolding check_files verdict
  MayOperate-check_files s u (e, f, c, m, w) =
      simp
        (
          e,
          f,
          c,
          verify_secret-is_in s secrets.values ∙ Has-is_in s secrets.values m,
          whitelisted_of u users w,
        )
        refl

  authorize_operator_iff :
      (secret user : Option String)
      → ((authorize_operator strip d secret user store).0 ≡ none) ↔ MayOperate secret user
  authorize_operator_iff none user = (λ h. some-ne-none _ h, λ h. absurd h)
  authorize_operator_iff (some s) none = (λ h. some-ne-none _ h, λ h. absurd h)
  authorize_operator_iff (some s) (some u) =
      (check_files-MayOperate s u, MayOperate-check_files s u)

  authorize_level_iff :
      (mode : AuthMode) (level : PrivilegeLevel) (c : CallCredentials)
      → ((authorize_level strip d mode level c store).0.rejection ≡ none) ↔ IsAllowed mode level c
  authorize_level_iff mode public c = (λ h. tt, λ h. refl)
  authorize_level_iff disabled child c = (λ h. inl refl, λ h. refl)
  authorize_level_iff enabled child c = (λ h. ground arith, λ h. ground arith)
  authorize_level_iff disabled operator c = (λ h. inl refl, λ h. refl)
  authorize_level_iff enabled operator c = (
    λ h. inr ((authorize_operator_iff c.secret c.user).0 h),
    λ h. elim h [
      | inl e ↦ absurd (ground arith)
      | inr m ↦ (authorize_operator_iff c.secret c.user).1 m
    ],
  )

  -- A method has a level by the tables, and the gate lets a call of it through exactly if the level is
  -- public, authentication is disabled, it is a job's and carries a password, or it is an operator's,
  -- both files can be read, there is one of secrets, the secret is of it, and the user is of the
  -- whitelist, if there is one. The level is of the first entry of the table that is given, or without
  -- one of the queries' table and then of the commands'; a method in no table is an operator's.
  pub authorize_iff :
      (mode : AuthMode) (table : Option (List (String × PrivilegeLevel))) (m : String)
      (c : CallCredentials)
      → (level : PrivilegeLevel) × IsLevel m table level
        × (((authorize strip d mode table m c store).0.rejection ≡ none) ↔ IsAllowed mode level c)
  unfolding authorize
  authorize_iff mode table m c = (
    privilege_for_method m table,
    privilege_for_method-IsLevel m table,
    authorize_level_iff mode (privilege_for_method m table) c,
  )
