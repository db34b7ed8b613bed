-- ===== src/UserCache/Redis/Laws.antt =====
-- RedisCache of internal/usercache/redis.go is a cache as the store in front of it needs one.
use Prim.Native.String.{◌++◌}
use rtk_account_manager.Common.{
  String, str_eq, ◌≡◌, refl, sym, subst, ap, ◌∙◌, ◌⊎◌, inl, inr, true, Option, some, ◌∷◌, Result,
  ok, err, plain, Bool-cases,
}
use rtk_account_manager.Model.User.{User}
use rtk_account_manager.Channel.Text.{is_space}
use rtk_account_manager.UserCache.Text.{trim, trim-trim, normalize_email}
use rtk_account_manager.UserCache.Cache.{
  Entry, user_entry, email_entry, auth_entry, IsOfUser, IsOfAuth, IsUnderUser, IsUnderId, IsUserAt,
  IsEmailAt, IsAuthAt, IsAuth, Writes, IsCache,
}
use rtk_account_manager.UserCache.Accounts.Coherence.{Separates}
use rtk_account_manager.UserCache.Redis.{
  RedisCache, Reply, text, scan_result, nil, other, escape_key, replace_all, and_then, done,
  text_of, found_text, some_of, decoded, platform_user_key, platform_email_key, platform_auth_key,
  set_string, set_json, get_platform_user, put_platform_user, put_platform_auth,
  delete_platform_user, email_keys, auth_pattern, flush_platform_auth, redis,
}
use rtk_account_manager.UserCache.Redis.Server.{IsServer, IsJson, is_literal, In, here, there}
use rtk_account_manager.UserCache.Redis.Entries.{
  full_key, layout, own_user, own_email, own_auth, Does, widen, fails-Does, Shrinks-Does,
  and_then-Does, set_string-Does-as, set_json-Does, delete-Does,
}
use rtk_account_manager.UserCache.Redis.Quiet.{put_auth-IsQuiet, delete_user-IsQuiet}
use rtk_account_manager.UserCache.Redis.Scans.{delete_by_pattern-Clears, delete_by_pattern-IsQuiet}

escape_key-trim : (id : String) → escape_key (trim id) ≡ escape_key id
unfolding escape_key
escape_key-trim id = ap (λ t. replace_all 58 "%3A" (replace_all 32 "%20" t)) (trim-trim id)

escape_key-star : escape_key "*" ≡ "*"
unfolding escape_key trim is_space
escape_key-star = refl

-- What a GET gave that was decoded.
decoded-text :
    {A : Type 0} (unmarshal : String → Result A) (r : Result Reply) (a : A)
    → decoded unmarshal (text_of r) ≡ ok (some a)
    → (t : String) × (r ≡ ok (text t)) × (unmarshal t ≡ ok a)
decoded-text unmarshal (err x) a h = absurd (cc (h))
decoded-text unmarshal (ok nil) a h = absurd (cc (h))
decoded-text unmarshal (ok other) a h = absurd (cc (h))
decoded-text unmarshal (ok (scan_result cursor ks)) a h = absurd (cc (h))
decoded-text {A = A} unmarshal (ok (text t)) a h = elim (Bool-cases (str_eq t "")) [
  | inl empty ↦ absurd (cc (h, empty))
  | inr full ↦ (t, refl, by_result (unmarshal t) (cc (h, full)))
]
  where
    by_result : (r : Result A) → some_of r ≡ ok (some a) → r ≡ ok a
    by_result (err x) e = absurd (cc (e))
    by_result (ok b) e = let same : b ≡ a = cc (e) in ap ok same

found_text-text :
    (r : Result Reply) (id : String) → found_text (text_of r) ≡ ok (some id) → r ≡ ok (text id)
found_text-text (err x) id h = absurd (cc (h))
found_text-text (ok nil) id h = absurd (cc (h))
found_text-text (ok other) id h = absurd (cc (h))
found_text-text (ok (scan_result cursor ks)) id h = absurd (cc (h))
found_text-text (ok (text t)) id h = elim (Bool-cases (str_eq t "")) [
  | inl empty ↦ absurd (cc (h, empty))
  | inr full ↦ let same : t ≡ id = cc (h, full) in ap (λ u. ok (text u)) same
]

module _ {S : Type 0} (c : RedisCache S) (value : S → String → Option String)
    {Left : String → String → S → String → Type 0} (server : IsServer c value Left)
    (json : IsJson c) (literal : is_literal (c.prefix ++ ":platform:auth:") ≡ true) where
  put_user-Does :
      (u : User) (s : S)
      → Does c value
          (IsOfUser (layout c value) u)
          (IsUnderUser (layout c value) u)
          s
          (put_platform_user c u s)
  put_user-Does u s = elim (Bool-cases (str_eq (trim u.id) "")) [
    | inl empty ↦ rw empty (fails-Does c value s (plain "missing platform user id"))
    | inr full ↦ rw full (
        and_then-Does c value s (set_json c c.marshal_user (platform_user_key c (trim u.id)) u s)
          (λ _ s'. set_string c (platform_email_key c u.email) (trim u.id) s')
          (set_json-Does c value server c.marshal_user (platform_user_key c (trim u.id)) u s
            (λ e t is at reads.
              own_user c value e (escape_key u.id) t u (at ∙ same_key) reads
                (json.user_read u t is))
            (under_id u))
          (λ a s'.
            set_string-Does-as c value server (platform_email_key c u.email) (trim u.id) s'
              (λ e at reads. own_email c value e _ (trim u.id) at reads) (under_email u)))
  ]
    where
      same_key : platform_user_key c (trim u.id) ≡ platform_user_key c u.id
      same_key = ap (λ k. (c.prefix ++ ":platform:id:") ++ k) (escape_key-trim u.id)

      under_id :
          (u : User) (e : Entry)
          → IsUserAt (escape_key u.id) e
          → full_key c value e ≡ platform_user_key c (trim u.id)
      under_id u (user_entry k v) at =
          ap (λ k. (c.prefix ++ ":platform:id:") ++ k) (at ∙ sym (escape_key-trim u.id))
      under_id u (email_entry k id) at = absurd at
      under_id u (auth_entry k v hash) at = absurd at

      under_email :
          (u : User) (e : Entry)
          → IsEmailAt (escape_key (normalize_email c.lower u.email)) e
          → full_key c value e ≡ platform_email_key c u.email
      under_email u (user_entry k v) at = absurd at
      under_email u (email_entry k id) at = ap (λ k. (c.prefix ++ ":platform:email:") ++ k) at
      under_email u (auth_entry k v hash) at = absurd at

  under_auth :
      (id : String) (e : Entry)
      → IsAuthAt (escape_key id) e
      → full_key c value e ≡ platform_auth_key c id
  under_auth id (user_entry k v) at = absurd at
  under_auth id (email_entry k i) at = absurd at
  under_auth id (auth_entry k v hash) at = ap (λ k. (c.prefix ++ ":platform:auth:") ++ k) at

  put_auth-Does :
      (u : User) (hash : String) (s : S)
      → Does c value
          (IsOfAuth (layout c value) u hash)
          (λ e. IsUnderUser (layout c value) u e ⊎ IsAuthAt (escape_key u.id) e)
          s
          (put_platform_auth c u hash s)
  put_auth-Does u hash s =
      and_then-Does c value s (put_platform_user c u s)
        (λ _ s'. set_json c c.marshal_auth (platform_auth_key c u.id) (u, hash) s')
        (put_user-Does u s)
        (λ a s'.
          set_json-Does c value server c.marshal_auth (platform_auth_key c u.id) (u, hash) s'
            (λ e t is at reads.
              own_auth c value e (escape_key u.id) t u hash at reads
                (json.auth_read (u, hash) t is))
            (under_auth u.id))

  delete_user-Does :
      (id : String) (s : S)
      → Does c value (λ e. ⊥) (IsUnderId (layout c value) id) s (delete_platform_user c id s)
  delete_user-Does id s =
      widen c value s (delete_platform_user c id s) (λ e n. elim n [ inl x ↦ x | inr x ↦ x ])
        (λ e o. inr o)
        (and_then-Does c value s (get_platform_user c id s)
          (λ found s'.
            and_then
              (c.command
                ("DEL" ∷ platform_user_key c id ∷ platform_auth_key c id ∷ email_keys c found) s')
              done)
          (Shrinks-Does c value s (get_platform_user c id s)
            (server.get_shrinks (platform_user_key c id) s))
          (λ found s'.
            delete-Does c value server
              (platform_user_key c id ∷ platform_auth_key c id ∷ email_keys c found) s'
              (own found)))
    where
      own :
          (found : Option User) (e : Entry)
          → IsUnderId (layout c value) id e
          → In
              (full_key c value e)
              (platform_user_key c id ∷ platform_auth_key c id ∷ email_keys c found)
      own found (user_entry k v) (inl at) =
          subst (λ j. In j (platform_user_key c id ∷ platform_auth_key c id ∷ email_keys c found))
            (ap (λ k. (c.prefix ++ ":platform:id:") ++ k) (sym at)) here
      own found (user_entry k v) (inr at) = absurd at
      own found (email_entry k i) (inl at) = absurd at
      own found (email_entry k i) (inr at) = absurd at
      own found (auth_entry k v hash) (inl at) = absurd at
      own found (auth_entry k v hash) (inr at) =
          subst (λ j. In j (platform_user_key c id ∷ platform_auth_key c id ∷ email_keys c found))
            (sym (under_auth id (auth_entry k v hash) at)) (there here)

  flush-Does : (s : S) → Does c value (λ e. ⊥) IsAuth s (flush_platform_auth c s)
  unfolding flush_platform_auth
  flush-Does s =
      let (shrinks, clears) =
        delete_by_pattern-Clears c value server (c.turns s) (auth_pattern c) "0" s in
      (
        λ e (t, at, reads). inl (t, shrinks _ t at, reads),
        λ a is e (t, at, reads). inl (
          (t, shrinks _ t at, reads),
          λ auth. clears (is ∙ same_unit a) _ t (left e t auth (shrinks _ t at)) at,
        ),
      )
    where
      same_unit : (a : Unit {0}) → Path (Result (Unit {0})) (ok a) (ok tt)
      same_unit tt = refl

      left :
          (e : Entry) (t : String)
          → IsAuth e
          → value s (full_key c value e) ≡ some t
          → Left (auth_pattern c) "0" s (full_key c value e)
      left (user_entry k v) t auth at = absurd auth
      left (email_entry k i) t auth at = absurd auth
      left (auth_entry k v hash) t auth at =
          subst (λ p. Left p "0" s ((c.prefix ++ ":platform:auth:") ++ k))
            (ap (λ p. (c.prefix ++ ":platform:auth:") ++ p) (sym escape_key-star))
            (server.scan_starts (c.prefix ++ ":platform:auth:") k t s literal at)

  writes :
      {New Old : Entry → Type 0} (s : S) (p : Result (Unit {0}) × S)
      → Does c value New Old s p
      → Writes (layout c value) New Old s p
  writes s (result, s') (all, last) = (all, λ is. last tt is)

  -- Over a server whose GET, SET, DEL and SCAN behave as documented, possibly failing and losing
  -- keys at any time, with an encoding/json that reads what it has written, and with a prefix in
  -- which MATCH reads every character as itself, RedisCache meets every law of the interface on
  -- which the agreement of cache and table rests.
  pub redis-IsCache : IsCache (layout c value) (redis c)
  unfolding flush_platform_auth
  redis-IsCache = record {
    user_found = λ id s u h.
        let (t, was, reads) = decoded-text c.unmarshal_user _ u h in
        (t, server.get_text (platform_user_key c id) t s was, reads);
    email_found = λ email s id h.
        (id, server.get_text (platform_email_key c email) id s (found_text-text _ id h), refl);
    auth_found = λ id s u hash h.
        let (t, was, reads) = decoded-text c.unmarshal_auth _ (u, hash) h in
        (t, server.get_text (platform_auth_key c id) t s was, reads);
    get_user_keeps = λ id s e (t, at, reads).
        (t, server.get_shrinks (platform_user_key c id) s (full_key c value e) t at, reads);
    get_email_keeps = λ email s e (t, at, reads).
        (t, server.get_shrinks (platform_email_key c email) s (full_key c value e) t at, reads);
    get_auth_keeps = λ id s e (t, at, reads).
        (t, server.get_shrinks (platform_auth_key c id) s (full_key c value e) t at, reads);
    put_user_writes = λ u s. writes s (put_platform_user c u s) (put_user-Does u s);
    put_auth_writes = λ u hash s. writes s (put_platform_auth c u hash s) (put_auth-Does u hash s);
    delete_writes = λ id s. writes s (delete_platform_user c id s) (delete_user-Does id s);
    flush_writes = λ s. writes s (flush_platform_auth c s) (flush-Does s);
    put_auth_logged = λ u hash s. put_auth-IsQuiet c value server json u hash s;
    delete_logged = λ id s. delete_user-IsQuiet c value server json id s;
    flush_logged = λ s. delete_by_pattern-IsQuiet c value server (c.turns s) (auth_pattern c) "0" s;
  }

-- A text that the keys leave as it is, as the ids of users and plain addresses are.
abbrev pub IsPlain : {S : Type 0} → RedisCache S → String → Type 0
IsPlain c t = (escape_key t ≡ t) × (normalize_email c.lower t ≡ t)

-- Two such texts never stand under one key.
pub redis-Separates :
    {S : Type 0} (c : RedisCache S) (value : S → String → Option String)
    → Separates (layout c value) (IsPlain c)
redis-Separates c value = record {
  ids = λ i j p q h. sym p.0 ∙ h ∙ q.0;
  emails = λ e f p q h. sym (ap escape_key p.1 ∙ p.0) ∙ h ∙ (ap escape_key q.1 ∙ q.0);
}
