-- ===== src/UserCache/Redis/Quiet.antt =====
-- The errors of internal/usercache/redis.go are never ErrNotFound, so that the store logs them.
use rtk_account_manager.Common.{
  String, str_eq, ◌≡◌, refl, subst, Bool, true, false, Option, none, [], ◌∷◌, Result, ok, err,
  plain, GoError, is_not_found, if◌then◌else◌,
}
use rtk_account_manager.Model.User.{User}
use rtk_account_manager.UserCache.Text.{trim}
use rtk_account_manager.UserCache.Redis.{
  RedisCache, Reply, text, scan_result, nil, other, and_then, done, text_of, some_of, decoded,
  platform_user_key, platform_email_key, platform_auth_key, set_string, set_json, get_platform_user,
  put_platform_user, put_platform_auth, delete_platform_user, email_keys,
}
use rtk_account_manager.UserCache.Redis.Server.{IsServer, IsJson}
use rtk_account_manager.UserCache.Redis.Entries.{
  IsQuiet, and_then-IsQuiet, set_string-IsQuiet, set_json-IsQuiet,
}
use rtk_account_manager.UserCache.Redis.Scans.{fails-IsQuiet}

module _ {S : Type 0} (c : RedisCache S) (value : S → String → Option String)
    {Left : String → String → S → String → Type 0} (server : IsServer c value Left)
    (json : IsJson c) where
  put_user-IsQuiet : (u : User) (s : S) → IsQuiet (put_platform_user c u s)
  put_user-IsQuiet u s = by_test (str_eq (trim u.id) "")
    where
      by_test :
          (b : Bool)
          → IsQuiet (
              if b
              then (err (plain "missing platform user id"), s)
              else and_then
                  (set_json c c.marshal_user (platform_user_key c (trim u.id)) u s)
                  (λ _ s'. set_string c (platform_email_key c u.email) (trim u.id) s'))
      by_test true = fails-IsQuiet c value server "missing platform user id" s
      by_test false =
          and_then-IsQuiet (set_json c c.marshal_user (platform_user_key c (trim u.id)) u s)
            (λ _ s'. set_string c (platform_email_key c u.email) (trim u.id) s')
            (set_json-IsQuiet c value server c.marshal_user (platform_user_key c (trim u.id)) u s
              (json.marshal_user_logged u))
            (λ _ s'.
              set_string-IsQuiet c value server (platform_email_key c u.email) (trim u.id) s')

  pub put_auth-IsQuiet : (u : User) (hash : String) (s : S) → IsQuiet (put_platform_auth c u hash s)
  put_auth-IsQuiet u hash s =
      and_then-IsQuiet (put_platform_user c u s)
        (λ _ s'. set_json c c.marshal_auth (platform_auth_key c u.id) (u, hash) s')
        (put_user-IsQuiet u s)
        (λ _ s'.
          set_json-IsQuiet c value server c.marshal_auth (platform_auth_key c u.id) (u, hash) s'
            (json.marshal_auth_logged (u, hash)))

  decoded-IsQuiet :
      (r : Result Reply)
      → ((e : GoError) → r ≡ err e → is_not_found e ≡ false)
      → (e : GoError) → decoded c.unmarshal_user (text_of r) ≡ err e
      → is_not_found e ≡ false
  decoded-IsQuiet (err x) quiet e is =
      let same : x ≡ e = cc (is) in subst (λ y. is_not_found y ≡ false) same (quiet x refl)
  decoded-IsQuiet (ok nil) quiet e is = absurd (cc (is))
  decoded-IsQuiet (ok other) quiet e is = unexpected e is
    where
      unexpected :
          (e : GoError)
          → Path (Result (Option User)) (err (plain "unexpected GET response")) (err e)
          → is_not_found e ≡ false
      unexpected e is =
          let same : plain "unexpected GET response" ≡ e = cc (is) in
          subst (λ y. is_not_found y ≡ false) same refl
  decoded-IsQuiet (ok (scan_result cursor ks)) quiet e is =
      let same : plain "unexpected GET response" ≡ e = cc (is) in
      subst (λ y. is_not_found y ≡ false) same refl
  decoded-IsQuiet (ok (text t)) quiet e is = by_test (str_eq t "") is
    where
      by_result :
          (r : Result User)
          → c.unmarshal_user t ≡ r
          → Path (Result (Option User)) (some_of r) (err e)
          → is_not_found e ≡ false
      by_result (err x) was h =
          let same : x ≡ e = cc (h) in
          subst (λ y. is_not_found y ≡ false) same (json.unmarshal_user_logged t x was)
      by_result (ok u) was h = absurd (cc (h))

      by_test :
          (b : Bool)
          → Path
              (Result (Option User))
              (if b then ok none else some_of (c.unmarshal_user t))
              (err e)
          → is_not_found e ≡ false
      by_test true h = absurd (cc (h))
      by_test false h = by_result (c.unmarshal_user t) refl h

  pub delete_user-IsQuiet : (id : String) (s : S) → IsQuiet (delete_platform_user c id s)
  delete_user-IsQuiet id s =
      and_then-IsQuiet (get_platform_user c id s)
        (λ found s'.
          and_then
            (c.command
              ("DEL" ∷ platform_user_key c id ∷ platform_auth_key c id ∷ email_keys c found) s')
            done)
        (decoded-IsQuiet (c.command ("GET" ∷ platform_user_key c id ∷ []) s).0
          (λ e is. server.command_logged _ s e is))
        (λ found s'.
          and_then-IsQuiet
            (c.command
              ("DEL" ∷ platform_user_key c id ∷ platform_auth_key c id ∷ email_keys c found) s')
            done (λ e is. server.command_logged _ s' e is) (λ reply s₂ e is. absurd (cc (is))))
