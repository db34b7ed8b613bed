-- ===== src/UserCache/Redis.antt =====
-- internal/usercache/redis.go: RedisCache for the users of the platform, over the commands of the
-- server.
pub mod Server
mod Keys
pub mod Entries
mod Scans
mod Quiet
pub mod Laws
use Prim.Native.Char.{Char, code}
use Prim.Native.String.{◌++◌}
use rtk_account_manager.Common.{
  ℕ, zero, suc, String, str_eq, Option, none, some, List, [], ◌∷◌, ◌==◌, if◌then◌else◌, Result, ok,
  err, plain,
}
use rtk_account_manager.Model.User.{User}
use rtk_account_manager.UserCache.Text.{trim, normalize_email}
use rtk_account_manager.UserCache.Cache.{Cache}

abbrev drop_colons : String → String
drop_colons String.[] = String.[]
drop_colons (String.◌∷◌ c s) =
    let rest = drop_colons s in if code c == 58 then rest else String.◌∷◌ c s

abbrev cons_unless_colon : Char → String → String
cons_unless_colon c String.[] = if code c == 58 then String.[] else String.◌∷◌ c String.[]
cons_unless_colon c (String.◌∷◌ d s) = String.◌∷◌ c (String.◌∷◌ d s)

abbrev drop_last_colons : String → String
drop_last_colons String.[] = String.[]
drop_last_colons (String.◌∷◌ c s) = cons_unless_colon c (drop_last_colons s)

-- The prefix that NewRedisCache makes of Config.Prefix.
unfoldable pub new_prefix : String → String
new_prefix configured =
    let prefix = drop_last_colons (drop_colons (trim configured)) in
    if str_eq prefix "" then "account_manager:user" else prefix

-- strings.ReplaceAll of one character
abbrev pub replace_all : ℕ → String → String → String
replace_all c new String.[] = String.[]
replace_all c new (String.◌∷◌ d s) =
    let rest = replace_all c new s in if code d == c then new ++ rest else String.◌∷◌ d rest

unfoldable pub escape_key : String → String
escape_key value = replace_all 58 "%3A" (replace_all 32 "%20" (trim value))

-- What redisCommand returns where it returns no error.
pub data Reply : Type 0 where
  text : String → Reply
  scan_result : String → List String → Reply
  nil : Reply
  other : Reply

-- The cache on a state `S` of the server, of the connections to it and of the context of the call:
-- its prefix, unicode.ToLower, redisCommand, encoding/json for the two types, and for how many turns
-- of deleteByPattern the context of the call lasts.
pub record RedisCache (S : Type 0) : Type 0 where
  pub prefix : String
  pub lower : Char → Char
  pub command : List String → S → Result Reply × S
  pub marshal_user : User → Result String
  pub unmarshal_user : String → Result User
  pub marshal_auth : User × String → Result String
  pub unmarshal_auth : String → Result (User × String)
  pub turns : S → ℕ

-- if err != nil { return err }
abbrev pub and_then : {S A B : Type 0} → Result A × S → (A → S → Result B × S) → Result B × S
and_then (err e, s) next = (err e, s)
and_then (ok a, s) next = next a s

abbrev pub done : {S : Type 0} → Reply → S → Result (Unit {0}) × S
done reply s = (ok tt, s)

abbrev pub text_of : Result Reply → Result String
text_of (err e) = err e
text_of (ok nil) = ok ""
text_of (ok (text t)) = ok t
text_of (ok _) = err (plain "unexpected GET response")

abbrev pub found_text : Result String → Result (Option String)
found_text (err e) = err e
found_text (ok t) = if str_eq t "" then ok none else ok (some t)

abbrev pub some_of : {A : Type 0} → Result A → Result (Option A)
some_of (err e) = err e
some_of (ok a) = ok (some a)

abbrev pub decoded : {A : Type 0} → (String → Result A) → Result String → Result (Option A)
decoded unmarshal (err e) = err e
decoded unmarshal (ok t) = if str_eq t "" then ok none else some_of (unmarshal t)

abbrev pub scan_command : String → String → List String
scan_command pattern cursor = "SCAN" ∷ cursor ∷ "MATCH" ∷ pattern ∷ "COUNT" ∷ "100" ∷ []

module _ {S : Type 0} (c : RedisCache S) where
  abbrev pub platform_user_key : String → String
  platform_user_key id = (c.prefix ++ ":platform:id:") ++ escape_key id

  abbrev pub platform_email_key : String → String
  platform_email_key email =
      (c.prefix ++ ":platform:email:") ++ escape_key (normalize_email c.lower email)

  abbrev pub platform_auth_key : String → String
  platform_auth_key id = (c.prefix ++ ":platform:auth:") ++ escape_key id

  abbrev pub get_string : String → S → Result String × S
  get_string key s = let (reply, s') = c.command ("GET" ∷ key ∷ []) s in (text_of reply, s')

  abbrev pub get_json : {A : Type 0} → (String → Result A) → String → S → Result (Option A) × S
  get_json unmarshal key s = let (t, s') = get_string key s in (decoded unmarshal t, s')

  abbrev pub set_string : String → String → S → Result (Unit {0}) × S
  set_string key value s = and_then (c.command ("SET" ∷ key ∷ value ∷ []) s) done

  abbrev pub set_json : {A : Type 0} → (A → Result String) → String → A → S → Result (Unit {0}) × S
  set_json marshal key value s = and_then (marshal value, s) (λ raw s'. set_string key raw s')

  abbrev pub get_platform_user : String → S → Result (Option User) × S
  get_platform_user id s = get_json c.unmarshal_user (platform_user_key id) s

  abbrev pub get_platform_user_id_by_email : String → S → Result (Option String) × S
  get_platform_user_id_by_email email s =
      let (t, s') = get_string (platform_email_key email) s in (found_text t, s')

  abbrev pub get_platform_auth : String → S → Result (Option (User × String)) × S
  get_platform_auth id s = get_json c.unmarshal_auth (platform_auth_key id) s

  abbrev pub put_platform_user : User → S → Result (Unit {0}) × S
  put_platform_user u s =
      if str_eq (trim u.id) ""
      then (err (plain "missing platform user id"), s)
      else and_then (set_json c.marshal_user (platform_user_key (trim u.id)) u s)
          (λ _ s'. set_string (platform_email_key u.email) (trim u.id) s')

  abbrev pub put_platform_auth : User → String → S → Result (Unit {0}) × S
  put_platform_auth u hash s =
      and_then (put_platform_user u s)
        (λ _ s'. set_json c.marshal_auth (platform_auth_key u.id) (u, hash) s')

  abbrev pub email_keys : Option User → List String
  email_keys none = []
  email_keys (some u) = platform_email_key u.email ∷ []

  abbrev pub delete_platform_user : String → S → Result (Unit {0}) × S
  delete_platform_user id s = and_then (get_platform_user id s) (λ found s'.
      and_then
        (c.command ("DEL" ∷ platform_user_key id ∷ platform_auth_key id ∷ email_keys found) s')
        done)

  -- if len(scan.keys) > 0
  abbrev pub delete_keys : List String → S → Result (Unit {0}) × S
  delete_keys [] s = (ok tt, s)
  delete_keys (k ∷ ks) s = and_then (c.command ("DEL" ∷ k ∷ ks) s) done

  -- What a turn does with the reply to SCAN; `again` is the next turn.
  abbrev pub after_scan : (String → S → Result (Unit {0}) × S) → Reply → S → Result (Unit {0}) × S
  after_scan again (scan_result cursor keys) s =
      and_then (delete_keys keys s)
        (λ _ s'. if str_eq cursor "0" then (ok tt, s') else again cursor s')
  after_scan again _ s = (err (plain "unexpected SCAN response"), s)

  -- The turns of deleteByPattern, until the context of the call ends.
  unfoldable pub delete_by_pattern : ℕ → String → String → S → Result (Unit {0}) × S
  delete_by_pattern zero pattern cursor s = (err (plain "context deadline exceeded"), s)
  delete_by_pattern (suc n) pattern cursor s =
      and_then (c.command (scan_command pattern cursor) s)
        (after_scan (delete_by_pattern n pattern))

  abbrev pub auth_pattern : String
  auth_pattern = platform_auth_key "*"

  unfoldable pub flush_platform_auth : S → Result (Unit {0}) × S
  unfolding delete_by_pattern
  flush_platform_auth s = delete_by_pattern (c.turns s) auth_pattern "0" s

  abbrev pub redis : Cache S
  redis = record {
    get_platform_user = get_platform_user;
    get_platform_user_id_by_email = get_platform_user_id_by_email;
    get_platform_auth = get_platform_auth;
    put_platform_user = put_platform_user;
    put_platform_auth = put_platform_auth;
    delete_platform_user = delete_platform_user;
    flush_platform_auth = flush_platform_auth;
  }
