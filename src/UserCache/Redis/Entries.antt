-- ===== src/UserCache/Redis/Entries.antt =====
-- What the calls of internal/usercache/redis.go do to the entries of users.
use Prim.Native.String.{◌++◌}
use text.Mathlib.TextLemmas.{append_cancel_left}
use rtk_account_manager.Common.{
  String, str_eq, eq_iff, ◌≡◌, refl, sym, subst, ◌∙◌, ◌⊎◌, inl, inr, Bool-cases, Option, some, List,
  [], ◌∷◌, Result, ok, err, GoError, is_not_found, false,
}
use rtk_account_manager.Model.User.{User}
use rtk_account_manager.UserCache.Text.{normalize_email}
use rtk_account_manager.UserCache.Cache.{Entry, user_entry, email_entry, auth_entry, Layout}
use rtk_account_manager.UserCache.Redis.{
  RedisCache, Reply, escape_key, and_then, done, set_string, set_json,
}
use rtk_account_manager.UserCache.Redis.Server.{IsServer, Shrinks, In}
use rtk_account_manager.UserCache.Redis.Keys.{id_not_email, id_not_auth, email_not_auth}

-- A call that has returned no error, or one that is not ErrNotFound.
abbrev pub IsQuiet : {S A : Type 0} → Result A × S → Type 0
IsQuiet (result, s) = (e : GoError) → result ≡ err e → is_not_found e ≡ false

pub and_then-IsQuiet :
    {S A B : Type 0} (p : Result A × S) (next : A → S → Result B × S)
    → IsQuiet p
    → ((a : A) (s : S) → IsQuiet (next a s))
    → IsQuiet (and_then p next)
and_then-IsQuiet (err x, s) next first rest e h =
    let same : x ≡ e = cc (h) in subst (λ y. is_not_found y ≡ false) same (first x refl)
and_then-IsQuiet (ok a, s) next first rest e h = rest a s e h

module _ {S : Type 0} (c : RedisCache S) (value : S → String → Option String) where
  abbrev pub full_key : Entry → String
  full_key (user_entry k u) = (c.prefix ++ ":platform:id:") ++ k
  full_key (email_entry k id) = (c.prefix ++ ":platform:email:") ++ k
  full_key (auth_entry k u hash) = (c.prefix ++ ":platform:auth:") ++ k

  abbrev pub Decodes : Entry → String → Type 0
  Decodes (user_entry k u) t = c.unmarshal_user t ≡ ok u
  Decodes (email_entry k id) t = t ≡ id
  Decodes (auth_entry k u hash) t = c.unmarshal_auth t ≡ ok (u, hash)

  abbrev pub Stored : S → Entry → Type 0
  Stored s e = (t : String) × (value s (full_key e) ≡ some t) × Decodes e t

  abbrev pub layout : Layout S
  layout = record {
    id_key = escape_key;
    email_key = λ email. escape_key (normalize_email c.lower email);
    Holds = Stored;
  }

  -- The entry that a key and its value make.
  pub own_user :
      (e : Entry) (k t : String) (u : User)
      → full_key e ≡ (c.prefix ++ ":platform:id:") ++ k
      → Decodes e t
      → c.unmarshal_user t ≡ ok u
      → e ≡ user_entry k u
  own_user (user_entry j v) k t u at reads is =
      let same_key : j ≡ k = append_cancel_left (c.prefix ++ ":platform:id:") j k at in
      let same : v ≡ u = cc (sym reads ∙ is) in cc (same_key, same)
  own_user (email_entry j id) k t u at reads is = absurd (id_not_email c.prefix k j (sym at))
  own_user (auth_entry j v hash) k t u at reads is = absurd (id_not_auth c.prefix k j (sym at))

  pub own_email :
      (e : Entry) (k t : String)
      → full_key e ≡ (c.prefix ++ ":platform:email:") ++ k
      → Decodes e t
      → e ≡ email_entry k t
  own_email (user_entry j v) k t at reads = absurd (id_not_email c.prefix j k at)
  own_email (email_entry j id) k t at reads =
      let same_key : j ≡ k = append_cancel_left (c.prefix ++ ":platform:email:") j k at in
      cc (same_key, reads)
  own_email (auth_entry j v hash) k t at reads = absurd (email_not_auth c.prefix k j (sym at))

  pub own_auth :
      (e : Entry) (k t : String) (u : User) (hash : String)
      → full_key e ≡ (c.prefix ++ ":platform:auth:") ++ k
      → Decodes e t
      → c.unmarshal_auth t ≡ ok (u, hash)
      → e ≡ auth_entry k u hash
  own_auth (user_entry j v) k t u hash at reads is = absurd (id_not_auth c.prefix j k at)
  own_auth (email_entry j id) k t u hash at reads is = absurd (email_not_auth c.prefix j k at)
  own_auth (auth_entry j v h) k t u hash at reads is =
      let same_key : j ≡ k = append_cancel_left (c.prefix ++ ":platform:auth:") j k at in
      let both : Path (Result (User × String)) (ok (v, h)) (ok (u, hash)) = sym reads ∙ is in
      let same_user : v ≡ u = cc (both) in
      let same_hash : h ≡ hash = cc (both) in cc (same_key, same_user, same_hash)

  -- After a call an entry was there before or is new; after one without an error, what was there
  -- and is not among the old ones, or is new.
  abbrev pub Does : {A : Type 0} → (Entry → Type 0) → (Entry → Type 0) → S → Result A × S → Type 0
  Does New Old s (result, s') =
      ((e : Entry) → Stored s' e → Stored s e ⊎ New e)
      × ((a : _) → result ≡ ok a → (e : Entry) → Stored s' e → (Stored s e × (Old e → ⊥)) ⊎ New e)

  pub widen :
      {A : Type 0} {New New' Old Old' : Entry → Type 0} (s : S) (p : Result A × S)
      → ((e : Entry) → New e → New' e)
      → ((e : Entry) → Old' e → Old e)
      → Does New Old s p
      → Does New' Old' s p
  widen s (result, s') new old (all, last) = (
    λ e h. elim (all e h) [ inl before ↦ inl before | inr n ↦ inr (new e n) ],
    λ a is e h. elim (last a is e h) [
      | inl before ↦ inl (before.0, λ o. before.1 (old e o))
      | inr n ↦ inr (new e n)
    ],
  )

  pub fails-Does :
      {A : Type 0} {New Old : Entry → Type 0} (s : S) (x : GoError)
      → Does {A = A} New Old s (err x, s)
  fails-Does s x = (λ e h. inl h, λ a is e h. absurd (cc (is)))

  pub Shrinks-Does :
      {A : Type 0} (s : S) (p : Result A × S) → Shrinks c value s p.1 → Does (λ e. ⊥) (λ e. ⊥) s p
  Shrinks-Does s (result, s') shrinks = (
    λ e (t, at, reads). inl (t, shrinks _ t at, reads),
    λ a is e (t, at, reads). inl ((t, shrinks _ t at, reads), λ o. o),
  )

  pub and_then-Does :
      {A B : Type 0} {New Old New' Old' : Entry → Type 0} (s : S) (p : Result A × S)
      (next : A → S → Result B × S)
      → Does New Old s p
      → ((a : A) (s' : S) → Does New' Old' s' (next a s'))
      → Does (λ e. New e ⊎ New' e) (λ e. Old e ⊎ Old' e) s (and_then p next)
  and_then-Does s (err x, s') next (all, last) rest = (
    λ e h. elim (all e h) [ inl before ↦ inl before | inr n ↦ inr (inl n) ],
    λ a is e h. absurd (cc (is)),
  )
  and_then-Does s (ok a, s') next (all, last) rest = (
    λ e h. elim ((rest a s').0 e h) [
      | inr n ↦ inr (inr n)
      | inl between ↦ elim (all e between) [ inl before ↦ inl before | inr n ↦ inr (inl n) ]
    ],
    λ b is e h. elim ((rest a s').1 b is e h) [
      | inr n ↦ inr (inr n)
      | inl between ↦ elim (last a refl e between.0) [
        | inr n ↦ inr (inl n)
        | inl before ↦ inl (before.0, λ o. elim o [ inl o' ↦ before.1 o' | inr o' ↦ between.1 o' ])
      ]
    ],
  )

  done-Does :
      {New Old : Entry → Type 0} (s : S) (p : Result Reply × S)
      → Does New Old s p
      → Does New Old s (and_then p done)
  done-Does s p does =
      widen s (and_then p done) (λ e n. elim n [ inl n' ↦ n' | inr n' ↦ absurd n' ]) (λ e o. inl o)
        (and_then-Does s p done does (λ reply s'. Shrinks-Does s' (done reply s') (λ k v h. h)))

  module _ {Left : String → String → S → String → Type 0} (server : IsServer c value Left) where
    abbrev pub NewAt : String → String → Entry → Type 0
    NewAt k v e = (full_key e ≡ k) × Decodes e v

    set_string-Does :
        (k v : String) (s : S) → Does (NewAt k v) (λ e. full_key e ≡ k) s (set_string c k v s)
    set_string-Does k v s = done-Does s (c.command ("SET" ∷ k ∷ v ∷ []) s) (
      λ e (t, at, reads). elim (server.set_writes k v (full_key e) t s at) [
        | inl before ↦ inl (t, before, reads)
        | inr (same_key, same) ↦ inr (same_key, subst (Decodes e) same reads)
      ],
      λ reply is e (t, at, reads). elim (Bool-cases (str_eq (full_key e) k)) [
        | inl own ↦
            let same_key = (eq_iff (full_key e) k).0 own in
            inr (
              same_key,
              subst (Decodes e)
                  (server.set_replaces k v t s reply is (
                    subst (λ j. value (c.command ("SET" ∷ k ∷ v ∷ []) s).1 j ≡ some t) same_key at))
                  reads,
            )
        | inr other ↦ elim (server.set_writes k v (full_key e) t s at) [
          | inl before ↦
              inl ((t, before, reads), λ same. cc (other, (eq_iff (full_key e) k).1 same))
          | inr (same_key, same) ↦ inr (same_key, subst (Decodes e) same reads)
        ]
      ],
    )

    pub set_string-Does-as :
        {New Old : Entry → Type 0} (k v : String) (s : S)
        → ((e : Entry) → full_key e ≡ k → Decodes e v → New e)
        → ((e : Entry) → Old e → full_key e ≡ k)
        → Does New Old s (set_string c k v s)
    set_string-Does-as k v s new old =
        widen s (set_string c k v s) (λ e (at, reads). new e at reads) old (set_string-Does k v s)

    pub set_json-Does :
        {A : Type 0} {New Old : Entry → Type 0} (marshal : A → Result String) (k : String) (a : A)
        (s : S)
        → ((e : Entry) (t : String) → marshal a ≡ ok t → full_key e ≡ k → Decodes e t → New e)
        → ((e : Entry) → Old e → full_key e ≡ k)
        → Does New Old s (set_json c marshal k a s)
    set_json-Does {New = New} {Old = Old} marshal k a s new old = by_text (marshal a) refl
      where
        by_text :
            (r : Result String)
            → marshal a ≡ r
            → Does New Old s (and_then (r, s) (λ t s'. set_string c k t s'))
        by_text (err x) is = fails-Does s x
        by_text (ok t) is = set_string-Does-as k t s (λ e at reads. new e t is at reads) old

    pub delete-Does :
        {Old : Entry → Type 0} (ks : List String) (s : S)
        → ((e : Entry) → Old e → In (full_key e) ks)
        → Does (λ e. ⊥) Old s (and_then (c.command ("DEL" ∷ ks) s) done)
    delete-Does ks s old = done-Does s (c.command ("DEL" ∷ ks) s) (
      (Shrinks-Does s (c.command ("DEL" ∷ ks) s) (server.del_shrinks ks s)).0,
      λ reply is e (t, at, reads). inl (
        (t, server.del_shrinks ks s (full_key e) t at, reads),
        λ o. server.del_removes ks (full_key e) t s reply is (old e o) at,
      ),
    )

    pub set_string-IsQuiet : (k v : String) (s : S) → IsQuiet (set_string c k v s)
    set_string-IsQuiet k v s =
        and_then-IsQuiet (c.command ("SET" ∷ k ∷ v ∷ []) s) done
          (λ e is. server.command_logged _ s e is) (λ reply s' e is. absurd (cc (is)))

    pub set_json-IsQuiet :
        {A : Type 0} (marshal : A → Result String) (k : String) (a : A) (s : S)
        → ((e : GoError) → marshal a ≡ err e → is_not_found e ≡ false)
        → IsQuiet (set_json c marshal k a s)
    set_json-IsQuiet marshal k a s quiet =
        and_then-IsQuiet (marshal a, s) (λ t s'. set_string c k t s') quiet
          (λ t s'. set_string-IsQuiet k t s')
