-- ===== src/UserCache/Accounts/Coherence/Writes.antt =====
-- The writes of internal/usercache/store.go keep the cache in agreement with the table of users.
use Prim.Native.Char.{Char}
use rtk_account_manager.Common.{
  String, ◌≡◌, ◌≢◌, inl, inr, Bool, true, false, Bool-cases, some, List, [], Result, ok, err,
  GoError, refl, sym, ap, ◌∙◌, subst, arith, str_eq, eq_iff, if◌then◌else◌,
}
use rtk_account_manager.Model.User.{User}
use rtk_account_manager.Store.Accounts.{
  UserRow, user_key, is_enabled, keep_if, find_enabled, update_enabled,
}
use rtk_account_manager.Store.Rows.{find_row, update_row, find_row-update_row}
use rtk_account_manager.UserCache.Text.{trim}
use rtk_account_manager.UserCache.Cache.{
  Entry, user_entry, email_entry, auth_entry, IsAuth, Cache, Layout, IsCache, Writes, IsLogged,
  IsUnderId,
}
use rtk_account_manager.UserCache.Accounts.{
  Cached, or_warn, put_user, put_auth, delete_user, flush_auth,
}
use rtk_account_manager.UserCache.Accounts.Coherence.{
  Coherent, IsCoherent, keep_if-eq-some, keep_if_enabled, of_user-Coherent, of_auth-Coherent,
}

-- A change of the row of an id that leaves the id and the address as they are.
module _ {W V : Type 0} (l : Layout W) (view : User → V) (users : List UserRow) (id : String)
    (g : UserRow → UserRow) (keeps_id : (r : UserRow) → (g r).user.id ≡ r.user.id)
    (keeps_email : (r : UserRow) → (g r).user.email ≡ r.user.email) where
  abbrev pub with_change : List UserRow
  with_change = update_row user_key id g users

  find-changed :
      (r : UserRow)
      → find_row user_key r.user.id users ≡ some r
      → find_row user_key r.user.id with_change ≡ some (if str_eq id r.user.id then g r else r)
  find-changed r found = ground (arith, find_row-update_row user_key id r.user.id g users keeps_id)

  find_enabled-other :
      (r : UserRow)
      → find_enabled r.user.id users ≡ some r
      → r.user.id ≢ id
      → find_enabled r.user.id with_change ≡ some r
  unfolding find_enabled
  find_enabled-other r found other =
      ground
        (arith, eq_iff id r.user.id, find_row-update_row user_key id r.user.id g users keeps_id)

  pub email-Coherent :
      (k email_id : String)
      → Coherent l view users (email_entry k email_id)
      → Coherent l view with_change (email_entry k email_id)
  email-Coherent k email_id (r, found, same_key, same) = elim (Bool-cases (str_eq id r.user.id)) [
    | inl it ↦ (
      g r,
      subst (λ j. find_row user_key j with_change ≡ some (g r)) (sym (keeps_id r))
          (find-changed r found ∙ rw it),
      ap l.email_key (keeps_email r) ∙ same_key,
      same ∙ ap trim (sym (keeps_id r)),
    )
    | inr other ↦ (r, find-changed r found ∙ rw other, same_key, same)
  ]

  -- What stands under another id agrees with the table afterwards.
  pub other-Coherent :
      (e : Entry) → Coherent l view users e → (IsUnderId l id e → ⊥) → Coherent l view with_change e
  other-Coherent (user_entry k u) (r, found, same_key, same) other = (
    r,
    find_enabled-other r found (λ same_id. other (inl (sym same_key ∙ ap l.id_key same_id))),
    same_key,
    same,
  )
  other-Coherent (email_entry k email_id) coherent other = email-Coherent k email_id coherent
  other-Coherent (auth_entry k u hash) (r, found, same_key, same, same_hash) other = (
    r,
    find_enabled-other r found (λ same_id. other (inr (sym same_key ∙ ap l.id_key same_id))),
    same_key,
    same,
    same_hash,
  )

  -- So does the user of the id itself, if the change is not seen and leaves the user enabled.
  pub unseen-Coherent :
      (e : Entry)
      → ((r : UserRow) → view (g r).user ≡ view r.user)
      → ((r : UserRow) → is_enabled (g r) ≡ is_enabled r)
      → Coherent l view users e
      → (IsAuth e → ⊥)
      → Coherent l view with_change e
  unfolding find_enabled
  unseen-Coherent (user_entry k u) unseen stays (r, found, same_key, same) other =
      let (row, is_on) = keep_if-eq-some is_enabled (find_row user_key r.user.id users) r found in
      elim (Bool-cases (str_eq id r.user.id)) [
        | inl it ↦ (
          g r,
          subst (λ j. keep_if is_enabled (find_row user_key j with_change) ≡ some (g r))
              (sym (keeps_id r))
              (keep_if_enabled _ (g r) (find-changed r row ∙ rw it) (stays r ∙ is_on)),
          ap l.id_key (keeps_id r) ∙ same_key,
          unseen r ∙ same,
        )
        | inr distinct ↦
            (r, keep_if_enabled _ r (find-changed r row ∙ rw distinct) is_on, same_key, same)
      ]
  unseen-Coherent (email_entry k email_id) unseen stays coherent other =
      email-Coherent k email_id coherent
  unseen-Coherent (auth_entry k u hash) unseen stays coherent other = absurd (other tt)

-- The row that an UPDATE of enabled rows changes.
pub find_enabled-update_enabled :
    (id : String) (f : UserRow → UserRow) (users : List UserRow) (r : UserRow)
    → ((q : UserRow) → (f q).user.id ≡ q.user.id)
    → ((q : UserRow) → is_enabled (f q) ≡ is_enabled q)
    → find_enabled id users ≡ some r
    → find_enabled id (update_enabled id f users) ≡ some (f r)
unfolding find_enabled update_enabled
find_enabled-update_enabled id f users r keeps_id stays found =
    let (row, is_on) = keep_if-eq-some is_enabled (find_row user_key id users) r found in
    keep_if_enabled _ (f r)
      (find_row-update_row user_key id id (λ q. if is_enabled q then f q else q) users
          (λ q. if_keeps (is_enabled q) q)
        ∙ rw ((eq_iff id id).1 refl, row, is_on))
      (stays r ∙ is_on)
  where
    if_keeps : (b : Bool) (q : UserRow) → (if b then f q else q).user.id ≡ q.user.id
    if_keeps true q = keeps_id q
    if_keeps false q = refl

module _ (lower : Char → Char) {W : Type 0} (l : Layout W) (c : Cache W) (laws : IsCache l c) where
  -- A call without a warning has succeeded, and there has been none before it.
  or_warn-eq-nil :
      (message : String) (log : List (String × GoError)) (m : Result (Unit {0}) × W)
      → IsLogged l m.0
      → (or_warn message log m).warnings ≡ []
      → (m.0 ≡ ok tt) × (log ≡ [])
  or_warn-eq-nil message log (ok done, w) logged h = (refl, h)
  or_warn-eq-nil message log (err e, w) logged h = absurd (ground (arith, logged e refl, h))

  pub or_warn_log :
      (message : String) (log : List (String × GoError)) (m : Result (Unit {0}) × W)
      → (or_warn message log m).warnings ≡ []
      → log ≡ []
  or_warn_log message log (ok done, w) h = h
  or_warn_log message log (err e, w) h = ground (arith, h)

  or_warn_cache :
      (message : String) (log : List (String × GoError)) (m : Result (Unit {0}) × W)
      → (or_warn message log m).cache ≡ m.1
  or_warn_cache message log (ok done, w) = refl
  or_warn_cache message log (err e, w) = refl

  module _ {V : Type 0} (view : User → V) (users : List UserRow) where
    -- A successful write leaves what it did not overwrite, and what it wrote.
    written-IsCoherent :
        {New Old : Entry → Type 0} (changed : List UserRow) (w : W) (m : Result (Unit {0}) × W)
        → Writes l New Old w m
        → m.0 ≡ ok tt
        → IsCoherent l view users w
        → ((e : Entry) → Coherent l view users e → (Old e → ⊥) → Coherent l view changed e)
        → ((e : Entry) → New e → Coherent l view changed e)
        → IsCoherent l view changed m.1
    written-IsCoherent changed w m writes done coherent other new e h = elim (writes.1 done e h) [
      | inl (before, apart) ↦ other e (coherent e before) apart
      | inr written ↦ new e written
    ]

    module _ (changed : List UserRow) (s : Cached W)
        (coherent : IsCoherent l view users s.cache) where
      -- The entries of a user are removed.
      pub delete_user-IsCoherent :
          (id : String)
          → ((e : Entry)
              → Coherent l view users e
              → (IsUnderId l id e → ⊥)
              → Coherent l view changed e)
          → (delete_user lower c id s).warnings ≡ []
          → IsCoherent l view changed (delete_user lower c id s).cache
      delete_user-IsCoherent id other quiet =
          let m = c.delete_platform_user id s.cache in
          rw (or_warn_cache "delete platform user cache failed" s.warnings m) (
            written-IsCoherent changed s.cache m (laws.delete_writes id s.cache)
              (or_warn-eq-nil _ s.warnings m (laws.delete_logged id s.cache) quiet).0 coherent other
              (λ e none'. absurd none'))

      -- The entries of a user and of the password are replaced.
      pub put_auth-IsCoherent :
          (r : UserRow)
          → find_enabled r.user.id changed ≡ some r
          → ((e : Entry)
              → Coherent l view users e
              → (IsUnderId l r.user.id e → ⊥)
              → Coherent l view changed e)
          → (put_auth lower c r.user r.password_hash s).warnings ≡ []
          → IsCoherent l view changed (put_auth lower c r.user r.password_hash s).cache
      put_auth-IsCoherent r found other quiet =
          let m = c.put_platform_auth r.user r.password_hash s.cache in
          rw (or_warn_cache "put platform auth cache failed" s.warnings m) (
            written-IsCoherent changed s.cache m
              (laws.put_auth_writes r.user r.password_hash s.cache)
              (or_warn-eq-nil _ s.warnings m (laws.put_auth_logged r.user r.password_hash s.cache)
                quiet).0
              coherent
              (λ e before apart. other e before (λ under.
                apart (elim under [ inl at_user ↦ inl (inl at_user) | inr at_auth ↦ inr at_auth ])))
              (of_auth-Coherent l view changed r found))

      -- All passwords are removed.
      pub flush_auth-IsCoherent :
          ((e : Entry) → Coherent l view users e → (IsAuth e → ⊥) → Coherent l view changed e)
          → (flush_auth lower c s).warnings ≡ []
          → IsCoherent l view changed (flush_auth lower c s).cache
      flush_auth-IsCoherent other quiet =
          let m = c.flush_platform_auth s.cache in
          rw (or_warn_cache "flush platform auth cache failed" s.warnings m) (
            written-IsCoherent changed s.cache m (laws.flush_writes s.cache)
              (or_warn-eq-nil _ s.warnings m (laws.flush_logged s.cache) quiet).0 coherent other
              (λ e none'. absurd none'))

    -- A user is put into a cache that agrees with the table, whether that succeeds or not.
    pub put_user-IsCoherent :
        (s : Cached W) (r : UserRow) (u : User)
        → find_enabled r.user.id users ≡ some r
        → u.id ≡ r.user.id
        → u.email ≡ r.user.email
        → view r.user ≡ view u
        → IsCoherent l view users s.cache
        → IsCoherent l view users (put_user lower c u s).cache
    put_user-IsCoherent s r u found same_id same_email same coherent =
        let m = c.put_platform_user u s.cache in
        rw (or_warn_cache "put platform user cache failed" s.warnings m) λ e h.
          elim ((laws.put_user_writes u s.cache).0 e h) [
            | inl before ↦ coherent e before
            | inr written ↦
                of_user-Coherent l view users r u found same_id same_email same e written
          ]
