-- ===== src/UserCache/Accounts/Coherence/Lookups.antt =====
-- What the lookups of internal/usercache/store.go find in a cache that agrees with the table.
use Prim.Native.Char.{Char}
use rtk_account_manager.Common.{
  String, ◌≡◌, inl, inr, Bool-cases, Option, none, some, List, Result, ok, err, ◌>>=◌, GoError,
  refl, sym, ap, ◌∙◌, subst, arith,
}
use rtk_account_manager.Channel.Text.{is_blank}
use rtk_account_manager.Model.User.{User}
use rtk_account_manager.Store.Accounts.{
  UserRow, Accounts, user_key, email_of, is_enabled, keep_if, find_enabled, find_enabled_by_email,
}
use rtk_account_manager.Store.Rows.{find_row, find_row-key}
use rtk_account_manager.Store.Rows.Distinct.{find_row-All, find_row_self}
use rtk_account_manager.Store.Tables.{or_not_found}
use rtk_account_manager.UserCache.Text.{trim, normalize_email}
use rtk_account_manager.UserCache.Cache.{
  Entry, Cache, Layout, IsCache, Keeps, Writes, user_entry, email_entry, auth_entry,
}
use rtk_account_manager.UserCache.Accounts.{
  Cached, or_miss, or_warn, unless_blank, cached_platform_user, cached_platform_user_id,
  cached_platform_auth, user_or_fill, auth_or_fill, with_id,
}
use rtk_account_manager.UserCache.Accounts.Coherence.{
  Separates, IsId, IsAddress, IsUserTable, Coherent, IsCoherent, IsRight, seen, seen_auth,
  find_enabled-row, keep_if-eq-some, keep_if_enabled, of_user-Coherent, of_auth-Coherent,
}

some-eq-some : (x y : UserRow) → some x ≡ some y → x ≡ y
some-eq-some x y h = cc

module _ (lower : Char → Char) {W V : Type 0} (l : Layout W) (view : User → V)
    (IsPlain : String → Type 0) (separates : Separates l IsPlain) (c : Cache W) (laws : IsCache l c)
    (db : Accounts) (table : IsUserTable IsPlain lower db.users) where
  -- A lookup in the cache keeps the agreement, and what it finds has the property.
  pub IsLookup : {A : Type 0} → (A → Type 0) → Option A × Cached W → Type 0
  IsLookup P (found, s) = IsCoherent l view db.users s.cache × ((a : _) → found ≡ some a → P a)

  or_miss-IsLookup :
      {A : Type 0} (P : A → Type 0) (message : String) (log : List (String × GoError)) (w : W)
      (m : Result (Option A) × W)
      → IsCoherent l view db.users w
      → Keeps l w m
      → ((a : A) → m.0 ≡ ok (some a) → P a)
      → IsLookup P (or_miss message log m)
  unfolding IsLookup
  or_miss-IsLookup P message log w (ok found, w') coherent keeps each =
      (λ e h. coherent e (keeps e h), λ a h. each a (ap ok h))
  or_miss-IsLookup P message log w (err x, w') coherent keeps each =
      (λ e h. coherent e (keeps e h), λ a h. cc)

  row_id : (id : String) (r : UserRow) → find_enabled id db.users ≡ some r → r.user.id ≡ id
  row_id id r found = find_row-key user_key id db.users r (find_enabled-row id db.users r found)

  row-IsId :
      (id : String) (r : UserRow) → find_row user_key id db.users ≡ some r → IsId IsPlain r.user.id
  row-IsId id r found =
      find_row-All user_key (λ q. IsId IsPlain q.user.id) id db.users r table.ids found

  -- The row under the key of an id is the row of that id.
  same_row :
      (id : String) (r : UserRow)
      → IsId IsPlain id
      → find_enabled r.user.id db.users ≡ some r
      → l.id_key r.user.id ≡ l.id_key (trim id)
      → find_enabled id db.users ≡ some r
  same_row id r (plain_id, trimmed) found same_key =
      subst (λ i. find_enabled i db.users ≡ some r)
        (separates.ids r.user.id id
          (row-IsId r.user.id r (find_enabled-row r.user.id db.users r found)).0 plain_id
          (same_key ∙ ap l.id_key trimmed))
        found

  -- The id is that of a row, and the row is what the store finds.
  pub user-IsLookup :
      (id : String) (s : Cached W)
      → IsId IsPlain id
      → IsCoherent l view db.users s.cache
      → IsLookup
          (λ u. (r : UserRow) × (find_enabled id db.users ≡ some r) × (view r.user ≡ view u))
          (cached_platform_user lower c id s)
  user-IsLookup id s is_id coherent =
      or_miss-IsLookup _ _ _ s.cache (c.get_platform_user (trim id) s.cache) coherent
        (laws.get_user_keeps (trim id) s.cache)
        λ u h.
          let (r, found, same_key, same) =
            coherent (user_entry (l.id_key (trim id)) u) (laws.user_found (trim id) s.cache u h) in
          (r, same_row id r is_id found same_key, same)

  -- The row shows what has been found under its id, and has its hash.
  abbrev pub ShowsAuth : UserRow → User × String → Type 0
  ShowsAuth r (u, hash) = (view r.user ≡ view u) × (r.password_hash ≡ hash)

  pub auth-IsLookup :
      (id : String) (s : Cached W)
      → IsId IsPlain id
      → IsCoherent l view db.users s.cache
      → IsLookup
          (λ a. (r : UserRow) × (find_enabled id db.users ≡ some r) × ShowsAuth r a)
          (cached_platform_auth lower c id s)
  auth-IsLookup id s is_id coherent =
      or_miss-IsLookup _ _ _ s.cache (c.get_platform_auth (trim id) s.cache) coherent
        (laws.get_auth_keeps (trim id) s.cache)
        λ a h.
          let (r, found, same_key, same, same_hash) =
            coherent (auth_entry (l.id_key (trim id)) a.0 a.1)
              (laws.auth_found (trim id) s.cache a.0 a.1 h) in
          (r, same_row id r is_id found same_key, (same, same_hash))

  unless_blank-eq-some : (o : Option String) (id : String) → unless_blank o ≡ some id → o ≡ some id
  unless_blank-eq-some none id h = h
  unless_blank-eq-some (some x) id h = elim (Bool-cases (is_blank x)) [
    | inl blank ↦ absurd (ground (arith, blank, h))
    | inr text ↦ ground (arith, text, h)
  ]

  -- An address that the store would look up leads to the id of the row that has it.
  pub id-IsLookup :
      (email : String) (s : Cached W)
      → IsAddress IsPlain lower email
      → IsCoherent l view db.users s.cache
      → IsLookup
          (λ id.
            (r : UserRow) × (find_row email_of email db.users ≡ some r)
            × (id ≡ r.user.id)
            × IsId IsPlain r.user.id)
          (cached_platform_user_id lower c email s)
  unfolding IsLookup
  id-IsLookup email s (plain_email, normal) coherent =
      let (kept, each) =
        or_miss-IsLookup
          (λ id.
            (r : UserRow) × (find_row email_of email db.users ≡ some r)
            × (id ≡ r.user.id)
            × IsId IsPlain r.user.id)
          "get platform user email cache failed" s.warnings s.cache
          (c.get_platform_user_id_by_email (normalize_email lower email) s.cache) coherent
          (laws.get_email_keeps (normalize_email lower email) s.cache)
          λ id h.
            let (r, by_id, same_key, same) =
              coherent (email_entry (l.email_key (normalize_email lower email)) id)
                (laws.email_found (normalize_email lower email) s.cache id h) in
            let is_id = row-IsId r.user.id r by_id in
            (r, by_email r by_id same_key, same ∙ is_id.1, is_id) in
      (kept, λ id h. each id (unless_blank-eq-some _ id h))
    where
      by_email :
          (r : UserRow)
          → find_row user_key r.user.id db.users ≡ some r
          → l.email_key r.user.email ≡ l.email_key (normalize_email lower email)
          → find_row email_of email db.users ≡ some r
      by_email r by_id same_key =
          let unique =
            find_row-All user_key (λ q. find_row email_of q.user.email db.users ≡ some q) r.user.id
              db.users r (find_row_self email_of db.users table.distinct_emails) by_id in
          let address =
            find_row-All user_key (λ q. IsAddress IsPlain lower q.user.email) r.user.id db.users r
              table.emails by_id in
          subst (λ e. find_row email_of e db.users ≡ some r)
            (separates.emails r.user.email email address.0 plain_email
              (same_key ∙ ap l.email_key normal))
            unique

  or_warn-IsCoherent :
      {New Old : Entry → Type 0} (message : String) (log : List (String × GoError)) (w : W)
      (m : Result (Unit {0}) × W)
      → Writes l New Old w m
      → ((e : Entry) → New e → Coherent l view db.users e)
      → IsCoherent l view db.users w
      → IsCoherent l view db.users (or_warn message log m).cache
  or_warn-IsCoherent message log w (ok done, w') writes each coherent e h = elim (writes.0 e h) [
    | inl before ↦ coherent e before
    | inr written ↦ each e written
  ]
  or_warn-IsCoherent message log w (err x, w') writes each coherent e h = elim (writes.0 e h) [
    | inl before ↦ coherent e before
    | inr written ↦ each e written
  ]

  -- What a read finds in the cache or in the table `o`, which it then puts into the cache.
  pub user_or_fill-IsRight :
      (o : Option UserRow) (m : Option User × Cached W)
      → ((r : UserRow) → o ≡ some r → find_enabled r.user.id db.users ≡ some r)
      → IsLookup (λ u. (r : UserRow) × (o ≡ some r) × (view r.user ≡ view u)) m
      → IsRight l view db.users
          (seen l view)
          (or_not_found o >>= λ r. ok r.user)
          (user_or_fill lower c (or_not_found o >>= λ r. ok r.user) m)
  unfolding IsLookup
  user_or_fill-IsRight o (some u, s) enabled (coherent, each) =
      let (r, found, same) = each u refl in (rw found (sym (ap ok same)), coherent)
  user_or_fill-IsRight none (none, s) enabled (coherent, each) = (refl, coherent)
  user_or_fill-IsRight (some r) (none, s) enabled (coherent, each) = (
    refl,
    or_warn-IsCoherent _ _ s.cache (c.put_platform_user r.user s.cache)
        (laws.put_user_writes r.user s.cache)
        (of_user-Coherent l view db.users r r.user (enabled r refl) refl refl refl) coherent,
  )

  pub auth_or_fill-IsRight :
      (o : Option UserRow) (m : Option (User × String) × Cached W)
      → ((r : UserRow) → o ≡ some r → find_enabled r.user.id db.users ≡ some r)
      → IsLookup (λ a. (r : UserRow) × (o ≡ some r) × ShowsAuth r a) m
      → IsRight l view db.users
          (seen_auth l view)
          (or_not_found o >>= λ r. ok (r.user, r.password_hash))
          (auth_or_fill lower c (or_not_found o >>= λ r. ok (r.user, r.password_hash)) m)
  unfolding IsLookup
  auth_or_fill-IsRight o (some a, s) enabled (coherent, each) =
      let (r, found, shows) = each a refl in (rw found (cc (shows.0, shows.1)), coherent)
  auth_or_fill-IsRight none (none, s) enabled (coherent, each) = (refl, coherent)
  auth_or_fill-IsRight (some r) (none, s) enabled (coherent, each) = (
    refl,
    or_warn-IsCoherent _ _ s.cache (c.put_platform_auth r.user r.password_hash s.cache)
        (laws.put_auth_writes r.user r.password_hash s.cache)
        (of_auth-Coherent l view db.users r (enabled r refl)) coherent,
  )

  pub enabled_row :
      (id : String) (r : UserRow)
      → find_enabled id db.users ≡ some r
      → find_enabled r.user.id db.users ≡ some r
  enabled_row id r found =
      subst (λ i. find_enabled i db.users ≡ some r) (sym (row_id id r found)) found

  -- A row found by its address is found by its id.
  row_by_id :
      (email : String) (r : UserRow)
      → find_row email_of email db.users ≡ some r
      → find_row user_key r.user.id db.users ≡ some r
  row_by_id email r =
      find_row-All email_of (λ q. find_row user_key q.user.id db.users ≡ some q) email db.users r
        (find_row_self user_key db.users table.distinct_ids)

  pub enabled_by_email :
      (email : String) (r : UserRow)
      → find_enabled_by_email email db.users ≡ some r
      → find_enabled r.user.id db.users ≡ some r
  unfolding find_enabled find_enabled_by_email
  enabled_by_email email r found =
      let (by_email, is_on) =
        keep_if-eq-some is_enabled (find_row email_of email db.users) r found in
      keep_if_enabled _ r (row_by_id email r by_email) is_on

  -- The lookup of a user by an address, whatever is looked up under the id.
  pub with_id-IsLookup :
      {A : Type 0} (P : UserRow → A → Type 0) (read : String → Cached W → Option A × Cached W)
      (email : String) (s : Cached W)
      → ((id : String) (s : Cached W)
          → IsId IsPlain id
          → IsCoherent l view db.users s.cache
          → IsLookup (λ a. (r : UserRow) × (find_enabled id db.users ≡ some r) × P r a) (read id s))
      → (m : Option String × Cached W)
      → IsLookup
          (λ id.
            (r : UserRow) × (find_row email_of email db.users ≡ some r)
            × (id ≡ r.user.id)
            × IsId IsPlain r.user.id)
          m
      → IsLookup
          (λ a. (r : UserRow) × (find_enabled_by_email email db.users ≡ some r) × P r a)
          (with_id lower c read m)
  unfolding IsLookup find_enabled find_enabled_by_email
  with_id-IsLookup P read email s each (none, s') (coherent, found) = (coherent, λ a h. cc)
  with_id-IsLookup P read email s each (some id, s') (coherent, found) =
      let (row, by_email, same_id, is_id) = found id refl in
      let (kept, right) = each id s' (subst (IsId IsPlain) (sym same_id) is_id) coherent in
      (kept, λ a h. on_row row by_email same_id a (right a h))
    where
      on_row :
          (row : UserRow)
          → find_row email_of email db.users ≡ some row
          → id ≡ row.user.id
          → (a : _) → (r : UserRow) × (find_enabled id db.users ≡ some r) × P r a
          → (r : UserRow) × (keep_if is_enabled (find_row email_of email db.users) ≡ some r) × P r a
      on_row row by_email same_id a (r, by_id, p) =
          let (found_row, is_on) =
            keep_if-eq-some is_enabled (find_row user_key id db.users) r by_id in
          let same : row ≡ r = some-eq-some row r (
            sym (row_by_id email row by_email)
            ∙ ap (λ i. find_row user_key i db.users) (sym same_id)
            ∙ found_row) in
          (r, keep_if_enabled _ r (by_email ∙ ap some same) is_on, p)
