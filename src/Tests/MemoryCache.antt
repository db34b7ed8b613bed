-- ===== src/Tests/MemoryCache.antt =====
-- A cache of users in memory, which implements the interface of internal/usercache/store.go.
use rtk_account_manager.Common.{
  String, str_eq, eq_iff, ◌≡◌, ◌⊎◌, inl, inr, Bool-cases, Option, none, some, if◌then◌else◌, ok,
  arith,
}
use rtk_account_manager.Model.User.{User}
use rtk_account_manager.UserCache.Text.{trim}
use rtk_account_manager.UserCache.Cache.{
  Cache, Entry, user_entry, email_entry, auth_entry, Layout, IsCache, IsOfUser, IsOfAuth,
  IsUnderUser, IsUnderId, IsAuthAt, IsAuth,
}

pub record Memory : Type 0 where
  pub user : String → Option User
  pub email : String → Option String
  pub auth : String → Option (User × String)

abbrev pub put : {A : Type 0} → String → A → (String → Option A) → String → Option A
put k a f j = if str_eq j k then some a else f j

abbrev pub remove : {A : Type 0} → String → (String → Option A) → String → Option A
remove k f j = if str_eq j k then none else f j

abbrev pub with_user : User → Memory → Memory
with_user u w = record w { user = put u.id u w.user; email = put u.email (trim u.id) w.email }

abbrev pub memory : Cache Memory
memory = record {
  get_platform_user = λ id w. (ok (w.user id), w);
  get_platform_user_id_by_email = λ email w. (ok (w.email email), w);
  get_platform_auth = λ id w. (ok (w.auth id), w);
  put_platform_user = λ u w. (ok tt, with_user u w);
  put_platform_auth =
      λ u hash w. (ok tt, record (with_user u w) { auth = put u.id (u, hash) w.auth });
  delete_platform_user =
      λ id w. (ok tt, record w { user = remove id w.user; auth = remove id w.auth });
  flush_platform_auth = λ w. (ok tt, record w { auth = λ id. none });
}

abbrev pub IsStored : Memory → Entry → Type 0
IsStored w (user_entry k u) = w.user k ≡ some u
IsStored w (email_entry k id) = w.email k ≡ some id
IsStored w (auth_entry k u hash) = w.auth k ≡ some (u, hash)

abbrev pub layout : Layout Memory
layout = record { id_key = λ id. id; email_key = λ email. email; Holds = IsStored }

pub put-cases :
    {A : Type 0} (k : String) (a : A) (f : String → Option A) (j : String) (b : A)
    → put k a f j ≡ some b
    → ((f j ≡ some b) × (j ≡ k → ⊥)) ⊎ ((j ≡ k) × (b ≡ a))
put-cases k a f j b h = elim (Bool-cases (str_eq j k)) [
  | inl it ↦ inr ((eq_iff j k).0 it, ground (arith, it, h))
  | inr other ↦ inl (ground (arith, other, h), λ same. cc (other, (eq_iff j k).1 same))
]

remove-cases :
    {A : Type 0} (k : String) (f : String → Option A) (j : String) (b : A)
    → remove k f j ≡ some b
    → (f j ≡ some b) × (j ≡ k → ⊥)
remove-cases k f j b h = elim (Bool-cases (str_eq j k)) [
  | inl it ↦ absurd (ground (arith, it, h))
  | inr other ↦ (ground (arith, other, h), λ same. cc (other, (eq_iff j k).1 same))
]

put_user_kept :
    (u : User) (w : Memory) (e : Entry)
    → IsStored (with_user u w) e
    → (IsStored w e × (IsUnderUser layout u e → ⊥)) ⊎ IsOfUser layout u e
put_user_kept u w (user_entry k v) h = elim (put-cases u.id u w.user k v h) [
  | inl before ↦ inl (before.0, λ under. elim under [ inl at ↦ before.1 at | inr at ↦ at ])
  | inr new ↦ inr (inl (cc (new.0, new.1)))
]
put_user_kept u w (email_entry k id) h = elim (put-cases u.email (trim u.id) w.email k id h) [
  | inl before ↦ inl (before.0, λ under. elim under [ inl at ↦ at | inr at ↦ before.1 at ])
  | inr new ↦ inr (inr (cc (new.0, new.1)))
]
put_user_kept u w (auth_entry k v hash) h =
    inl (h, λ under. elim under [ inl at ↦ at | inr at ↦ at ])

put_auth_kept :
    (u : User) (hash : String) (w : Memory) (e : Entry)
    → IsStored (record (with_user u w) { auth = put u.id (u, hash) w.auth }) e
    → (IsStored w e × (IsUnderUser layout u e ⊎ IsAuthAt u.id e → ⊥)) ⊎ IsOfAuth layout u hash e
put_auth_kept u hash w (user_entry k v) h = elim (put_user_kept u w (user_entry k v) h) [
  | inl before ↦ inl (before.0, λ under. elim under [ inl at ↦ before.1 at | inr at ↦ at ])
  | inr new ↦ inr (inl new)
]
put_auth_kept u hash w (email_entry k id) h = elim (put_user_kept u w (email_entry k id) h) [
  | inl before ↦ inl (before.0, λ under. elim under [ inl at ↦ before.1 at | inr at ↦ at ])
  | inr new ↦ inr (inl new)
]
put_auth_kept u hash w (auth_entry k v pw) h = elim (put-cases u.id (u, hash) w.auth k (v, pw) h) [
  | inl before ↦ inl (
    before.0,
    λ under. elim under [ inl at ↦ elim at [ inl a ↦ a | inr a ↦ a ] | inr at ↦ before.1 at ],
  )
  | inr new ↦ inr (inr (cc (new.0, new.1)))
]

delete_kept :
    (id : String) (w : Memory) (e : Entry)
    → IsStored (record w { user = remove id w.user; auth = remove id w.auth }) e
    → IsStored w e × (IsUnderId layout id e → ⊥)
delete_kept id w (user_entry k v) h =
    let (before, other) = remove-cases id w.user k v h in
    (before, λ under. elim under [ inl at ↦ other at | inr at ↦ at ])
delete_kept id w (email_entry k i) h = (h, λ under. elim under [ inl at ↦ at | inr at ↦ at ])
delete_kept id w (auth_entry k v pw) h =
    let (before, other) = remove-cases id w.auth k (v, pw) h in
    (before, λ under. elim under [ inl at ↦ at | inr at ↦ other at ])

flush_kept :
    (w : Memory) (e : Entry)
    → IsStored (record w { auth = λ id. none }) e
    → IsStored w e × (IsAuth e → ⊥)
flush_kept w (user_entry k v) h = (h, λ at. at)
flush_kept w (email_entry k i) h = (h, λ at. at)
flush_kept w (auth_entry k v pw) h = cc

-- What the laws ask of a write that always succeeds.
drop_second : {A B C : Type 0} → (A × B) ⊎ C → A ⊎ C
drop_second (inl (a, b)) = inl a
drop_second (inr c) = inr c

pub memory-IsCache : IsCache layout memory
memory-IsCache = record {
  user_found = λ id w u h. cc (h);
  email_found = λ email w id h. cc (h);
  auth_found = λ id w u hash h. cc (h);
  get_user_keeps = λ id w e h. h;
  get_email_keeps = λ email w e h. h;
  get_auth_keeps = λ id w e h. h;
  put_user_writes =
      λ u w. (λ e h. drop_second (put_user_kept u w e h), λ done e h. put_user_kept u w e h);
  put_auth_writes = λ u hash w.
      (λ e h. drop_second (put_auth_kept u hash w e h), λ done e h. put_auth_kept u hash w e h);
  delete_writes =
      λ id w. (λ e h. inl (delete_kept id w e h).0, λ done e h. inl (delete_kept id w e h));
  flush_writes = λ w. (λ e h. inl (flush_kept w e h).0, λ done e h. inl (flush_kept w e h));
  put_auth_logged = λ u hash w e h. cc (h);
  delete_logged = λ id w e h. cc (h);
  flush_logged = λ w e h. cc (h);
}
