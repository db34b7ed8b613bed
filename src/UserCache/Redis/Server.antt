-- ===== src/UserCache/Redis/Server.antt =====
-- What internal/usercache/redis.go relies on: the commands GET, SET, DEL and SCAN of the server as
-- they are documented, and encoding/json.
use Prim.Native.Char.{code}
use Prim.Native.String.{◌++◌}
use rtk_account_manager.Common.{
  String, ◌≡◌, ◌≢◌, ◌⊎◌, Bool, true, false, ◌&&◌, ◌||◌, not, Option, some, List, [], ◌∷◌, ◌==◌, ok,
  err, GoError, is_not_found,
}
use rtk_account_manager.Model.User.{User}
use rtk_account_manager.UserCache.Redis.{RedisCache, Reply, text, scan_result, scan_command}

-- A text in which MATCH reads every character as itself.
unfoldable pub is_literal : String → Bool
is_literal String.[] = true
is_literal (String.◌∷◌ c s) =
    not ((code c == 42) || (code c == 63) || (code c == 91) || (code c == 92)) && is_literal s

pub data In : String → List String → Type 0 where
  here : {k : String} {ks : List String} → In k (k ∷ ks)
  there : {j k : String} {ks : List String} → In k ks → In k (j ∷ ks)

module _ {S : Type 0} (c : RedisCache S) (value : S → String → Option String) where
  -- The second state has no value that the first one has not: a server may lose keys.
  abbrev pub Shrinks : S → S → Type 0
  Shrinks s s' = (k v : String) → value s' k ≡ some v → value s k ≡ some v

  -- `value` is the string that a key holds. `Left p cursor s k`: an iteration of SCAN over the keys
  -- that match p, which has come to this cursor, has not returned the key k yet.
  pub record IsServer (Left : String → String → S → String → Type 0) : Type 0 where
    pub get_text :
        (k v : String) (s : S) → (c.command ("GET" ∷ k ∷ []) s).0 ≡ ok (text v) → value s k ≡ some v
    pub get_shrinks : (k : String) (s : S) → Shrinks s (c.command ("GET" ∷ k ∷ []) s).1
    pub set_writes :
        (k v j w : String) (s : S)
        → value (c.command ("SET" ∷ k ∷ v ∷ []) s).1 j ≡ some w
        → (value s j ≡ some w) ⊎ ((j ≡ k) × (w ≡ v))
    pub set_replaces :
        (k v w : String) (s : S) (reply : Reply)
        → (c.command ("SET" ∷ k ∷ v ∷ []) s).0 ≡ ok reply
        → value (c.command ("SET" ∷ k ∷ v ∷ []) s).1 k ≡ some w
        → w ≡ v
    pub del_shrinks : (ks : List String) (s : S) → Shrinks s (c.command ("DEL" ∷ ks) s).1
    pub del_removes :
        (ks : List String) (k v : String) (s : S) (reply : Reply)
        → (c.command ("DEL" ∷ ks) s).0 ≡ ok reply
        → In k ks
        → value (c.command ("DEL" ∷ ks) s).1 k ≡ some v
        → ⊥
    pub scan_shrinks :
        (p cursor : String) (s : S) → Shrinks s (c.command (scan_command p cursor) s).1
    pub scan_starts :
        (p t v : String) (s : S)
        → is_literal p ≡ true
        → value s (p ++ t) ≡ some v
        → Left (p ++ "*") "0" s (p ++ t)
    pub scan_returns :
        (p cursor next : String) (ks : List String) (k v : String) (s : S)
        → (c.command (scan_command p cursor) s).0 ≡ ok (scan_result next ks)
        → Left p cursor s k
        → value (c.command (scan_command p cursor) s).1 k ≡ some v
        → In k ks ⊎ ((next ≢ "0") × Left p next (c.command (scan_command p cursor) s).1 k)
    pub del_keeps_left :
        (ks : List String) (p cursor k : String) (s : S)
        → Left p cursor s k
        → Left p cursor (c.command ("DEL" ∷ ks) s).1 k
    pub command_logged :
        (args : List String) (s : S) (e : GoError)
        → (c.command args s).0 ≡ err e
        → is_not_found e ≡ false

-- encoding/json reads what it has written, and its errors are its own.
pub record IsJson {S : Type 0} (c : RedisCache S) : Type 0 where
  pub user_read : (u : User) (t : String) → c.marshal_user u ≡ ok t → c.unmarshal_user t ≡ ok u
  pub auth_read :
      (a : User × String) (t : String) → c.marshal_auth a ≡ ok t → c.unmarshal_auth t ≡ ok a
  pub marshal_user_logged :
      (u : User) (e : GoError) → c.marshal_user u ≡ err e → is_not_found e ≡ false
  pub unmarshal_user_logged :
      (t : String) (e : GoError) → c.unmarshal_user t ≡ err e → is_not_found e ≡ false
  pub marshal_auth_logged :
      (a : User × String) (e : GoError) → c.marshal_auth a ≡ err e → is_not_found e ≡ false
