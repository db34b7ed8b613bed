-- ===== src/UserCache/Accounts/Coherence.antt =====
-- What it means for the cache of internal/usercache/store.go to agree with the table of users.
mod Lookups
pub mod Reads
pub mod Writes
pub mod Operations
pub mod Table
pub mod Histories
use Prim.Native.Char.{Char}
use rtk_account_manager.Common.{
  String, ◌≡◌, ◌⊎◌, inl, inr, Option, none, some, List, All, Result, ok, err, refl, sym, ap, ◌∙◌,
  subst, arith, eq_iff, str_eq, Bool, true, false, Bool-cases, Option-cases, ◌≢◌,
}
use rtk_account_manager.Model.User.{User}
use rtk_account_manager.Store.Accounts.{
  UserRow, user_key, email_of, is_enabled, keep_if, find_enabled, find_enabled_by_email,
}
use rtk_account_manager.Store.Rows.{find_row, find_row-key}
use rtk_account_manager.Store.Rows.Distinct.{Distinct, find_row-All, find_row_self}
use rtk_account_manager.UserCache.Text.{trim, normalize_email}
use rtk_account_manager.UserCache.Cache.{
  Entry, user_entry, email_entry, auth_entry, Layout, IsOfUser, IsOfAuth,
}
use rtk_account_manager.UserCache.Accounts.{Cached}

-- The texts that no other text is confused with under the keys of a layout.
pub record Separates {W : Type 0} (l : Layout W) (IsPlain : String → Type 0) : Type 0 where
  pub ids : (i j : String) → IsPlain i → IsPlain j → l.id_key i ≡ l.id_key j → i ≡ j
  pub emails : (e f : String) → IsPlain e → IsPlain f → l.email_key e ≡ l.email_key f → e ≡ f

-- An id without spaces around it.
abbrev pub IsId : (String → Type 0) → String → Type 0
IsId IsPlain id = IsPlain id × (trim id ≡ id)

-- An address as the store writes it.
abbrev pub IsAddress : (String → Type 0) → (Char → Char) → String → Type 0
IsAddress IsPlain lower email = IsPlain email × (normalize_email lower email ≡ email)

-- The table of users: ids and addresses are unique and well formed.
pub record IsUserTable (IsPlain : String → Type 0) (lower : Char → Char) (users : List UserRow)
    : Type 0 where
  pub distinct_ids : Distinct user_key users
  pub distinct_emails : Distinct email_of users
  pub ids : All (λ r. IsId IsPlain r.user.id) users
  pub emails : All (λ r. IsAddress IsPlain lower r.user.email) users

-- A user who is found is enabled, and has the row of the key.
pub keep_if-eq-some :
    (test : UserRow → Bool) (o : Option UserRow) (r : UserRow)
    → keep_if test o ≡ some r
    → (o ≡ some r) × (test r ≡ true)
keep_if-eq-some test none r h = cc
keep_if-eq-some test (some q) r h = elim (Bool-cases (test q)) [
  | inl yes' ↦
      let same : q ≡ r = ground (arith, h, yes') in
      (ap some same, subst (λ x. test x ≡ true) same yes')
  | inr no' ↦ absurd (ground (arith, h, no'))
]

pub keep_if_enabled :
    (o : Option UserRow) (r : UserRow)
    → o ≡ some r
    → is_enabled r ≡ true
    → keep_if is_enabled o ≡ some r
keep_if_enabled o r found is_on = ground (arith, found, is_on)

pub find_enabled-row :
    (id : String) (users : List UserRow) (r : UserRow)
    → find_enabled id users ≡ some r
    → find_row user_key id users ≡ some r
unfolding find_enabled
find_enabled-row id users r h = (keep_if-eq-some is_enabled (find_row user_key id users) r h).0

module _ {W V : Type 0} (l : Layout W) (view : User → V) where
  -- An entry says of a user what the table says, as far as `view` shows it; under an address stands
  -- the id of the user who has it.
  abbrev pub Coherent : List UserRow → Entry → Type 0
  Coherent users (user_entry k u) =
      (r : UserRow) × (find_enabled r.user.id users ≡ some r)
      × (l.id_key r.user.id ≡ k)
      × (view r.user ≡ view u)
  Coherent users (email_entry k id) =
      (r : UserRow) × (find_row user_key r.user.id users ≡ some r)
      × (l.email_key r.user.email ≡ k)
      × (id ≡ trim r.user.id)
  Coherent users (auth_entry k u hash) =
      (r : UserRow) × (find_enabled r.user.id users ≡ some r)
      × (l.id_key r.user.id ≡ k)
      × (view r.user ≡ view u)
      × (r.password_hash ≡ hash)

  abbrev pub IsCoherent : List UserRow → W → Type 0
  IsCoherent users w = (e : Entry) → l.Holds w e → Coherent users e

  -- What is seen of an answer.
  abbrev pub seen : Result User → Result V
  seen (err e) = err e
  seen (ok u) = ok (view u)

  abbrev pub seen_auth : Result (User × String) → Result (V × String)
  seen_auth (err e) = err e
  seen_auth (ok (u, hash)) = ok (view u, hash)

  -- An answer in which the right user is seen, from a state that agrees with the table.
  abbrev pub IsRight :
      {A B : Type 0}
      → List UserRow
      → (Result A → Result B)
      → Result A
      → Result A × Cached W
      → Type 0
  IsRight users see expected (answer, s) = (see answer ≡ see expected) × IsCoherent users s.cache

  -- The entries that are made of an enabled row agree with the table.
  pub of_user-Coherent :
      (users : List UserRow) (r : UserRow) (u : User)
      → find_enabled r.user.id users ≡ some r
      → u.id ≡ r.user.id
      → u.email ≡ r.user.email
      → view r.user ≡ view u
      → (e : Entry) → IsOfUser l u e
      → Coherent users e
  of_user-Coherent users r u found same_id same_email same e (inl is_user) =
      subst (Coherent users) (sym is_user) (r, found, ap l.id_key (sym same_id), same)
  of_user-Coherent users r u found same_id same_email same e (inr is_email) =
      subst (Coherent users) (sym is_email) (
        r,
        find_enabled-row r.user.id users r found,
        ap l.email_key (sym same_email),
        ap trim same_id,
      )

  pub of_auth-Coherent :
      (users : List UserRow) (r : UserRow)
      → find_enabled r.user.id users ≡ some r
      → (e : Entry) → IsOfAuth l r.user r.password_hash e
      → Coherent users e
  of_auth-Coherent users r found e (inl of_user) =
      of_user-Coherent users r r.user found refl refl refl e of_user
  of_auth-Coherent users r found e (inr is_auth) =
      subst (Coherent users) (sym is_auth) (r, found, refl, refl, refl)
