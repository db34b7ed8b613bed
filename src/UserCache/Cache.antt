-- ===== src/UserCache/Cache.antt =====
-- The interface cacheStore of internal/usercache/store.go, for the users of the platform, with what
-- the store needs of an implementation.
use rtk_account_manager.Common.{
  String, ◌≡◌, ◌⊎◌, Option, some, Result, ok, err, GoError, is_not_found, false,
}
use rtk_account_manager.Model.User.{User}
use rtk_account_manager.UserCache.Text.{trim}

-- The operations, on a state `W` of the cache and of the connection to it.
pub record Cache (W : Type 0) : Type 0 where
  pub get_platform_user : String → W → Result (Option User) × W
  pub get_platform_user_id_by_email : String → W → Result (Option String) × W
  pub get_platform_auth : String → W → Result (Option (User × String)) × W
  pub put_platform_user : User → W → Result (Unit {0}) × W
  pub put_platform_auth : User → String → W → Result (Unit {0}) × W
  pub delete_platform_user : String → W → Result (Unit {0}) × W
  pub flush_platform_auth : W → Result (Unit {0}) × W

-- What a cache may hold, each under the key that is made of an id or of an address.
pub data Entry : Type 0 where
  user_entry : String → User → Entry
  email_entry : String → String → Entry
  auth_entry : String → User → String → Entry

abbrev pub IsUserAt : String → Entry → Type 0
IsUserAt k (user_entry j u) = j ≡ k
IsUserAt k _ = ⊥

abbrev pub IsEmailAt : String → Entry → Type 0
IsEmailAt k (email_entry j id) = j ≡ k
IsEmailAt k _ = ⊥

abbrev pub IsAuthAt : String → Entry → Type 0
IsAuthAt k (auth_entry j u hash) = j ≡ k
IsAuthAt k _ = ⊥

abbrev pub IsAuth : Entry → Type 0
IsAuth (auth_entry j u hash) = Unit
IsAuth _ = ⊥

-- The keys of an implementation and what its states hold.
pub record Layout (W : Type 0) : Type 1 where
  pub id_key : String → String
  pub email_key : String → String
  pub Holds : W → Entry → Type 0

module _ {W : Type 0} (l : Layout W) where
  -- After a call that changes the cache, also one that fails, an entry was there before or is
  -- written by the call; after one that succeeds, what was there has not been overwritten.
  abbrev pub Writes : (Entry → Type 0) → (Entry → Type 0) → W → Result (Unit {0}) × W → Type 0
  Writes New Old w (result, w') =
      ((e : Entry) → l.Holds w' e → l.Holds w e ⊎ New e)
      × (result ≡ ok tt → (e : Entry) → l.Holds w' e → (l.Holds w e × (Old e → ⊥)) ⊎ New e)

  -- A call that reads leaves no entry that was not there.
  abbrev pub Keeps {κ} : {A : Type κ} → W → A × W → Type 0
  Keeps w (a, w') = (e : Entry) → l.Holds w' e → l.Holds w e

  abbrev pub IsOfUser : User → Entry → Type 0
  IsOfUser u e =
      (e ≡ user_entry (l.id_key u.id) u) ⊎ (e ≡ email_entry (l.email_key u.email) (trim u.id))

  abbrev pub IsOfAuth : User → String → Entry → Type 0
  IsOfAuth u hash e = IsOfUser u e ⊎ (e ≡ auth_entry (l.id_key u.id) u hash)

  abbrev pub IsUnderUser : User → Entry → Type 0
  IsUnderUser u e = IsUserAt (l.id_key u.id) e ⊎ IsEmailAt (l.email_key u.email) e

  abbrev pub IsUnderId : String → Entry → Type 0
  IsUnderId id e = IsUserAt (l.id_key id) e ⊎ IsAuthAt (l.id_key id) e

  -- An error of the cache is logged: it is not ErrNotFound.
  abbrev pub IsLogged : Result (Unit {0}) → Type 0
  IsLogged result = (e : GoError) → result ≡ err e → is_not_found e ≡ false

  -- What the store relies on.
  pub record IsCache (c : Cache W) : Type 0 where
    pub user_found :
        (id : String) (w : W) (u : User)
        → (c.get_platform_user id w).0 ≡ ok (some u)
        → l.Holds w (user_entry (l.id_key id) u)
    pub email_found :
        (email : String) (w : W) (id : String)
        → (c.get_platform_user_id_by_email email w).0 ≡ ok (some id)
        → l.Holds w (email_entry (l.email_key email) id)
    pub auth_found :
        (id : String) (w : W) (u : User) (hash : String)
        → (c.get_platform_auth id w).0 ≡ ok (some (u, hash))
        → l.Holds w (auth_entry (l.id_key id) u hash)
    pub get_user_keeps : (id : String) (w : W) → Keeps w (c.get_platform_user id w)
    pub get_email_keeps :
        (email : String) (w : W) → Keeps w (c.get_platform_user_id_by_email email w)
    pub get_auth_keeps : (id : String) (w : W) → Keeps w (c.get_platform_auth id w)
    pub put_user_writes :
        (u : User) (w : W) → Writes (IsOfUser u) (IsUnderUser u) w (c.put_platform_user u w)
    pub put_auth_writes :
        (u : User) (hash : String) (w : W)
        → Writes
            (IsOfAuth u hash)
            (λ e. IsUnderUser u e ⊎ IsAuthAt (l.id_key u.id) e)
            w
            (c.put_platform_auth u hash w)
    pub delete_writes :
        (id : String) (w : W) → Writes (λ e. ⊥) (IsUnderId id) w (c.delete_platform_user id w)
    pub flush_writes : (w : W) → Writes (λ e. ⊥) IsAuth w (c.flush_platform_auth w)
    pub put_auth_logged :
        (u : User) (hash : String) (w : W) → IsLogged (c.put_platform_auth u hash w).0
    pub delete_logged : (id : String) (w : W) → IsLogged (c.delete_platform_user id w).0
    pub flush_logged : (w : W) → IsLogged (c.flush_platform_auth w).0
