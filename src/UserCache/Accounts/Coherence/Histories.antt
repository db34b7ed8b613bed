-- ===== src/UserCache/Accounts/Coherence/Histories.antt =====
-- Any number of reads and writes through the cache of internal/usercache/store.go.
use Prim.Native.Char.{Char, code}
use rtk_account_manager.Common.{String, ◌≡◌, List, [], ◌∷◌, Time}
use rtk_account_manager.Channel.Text.{is_space}
use rtk_account_manager.Store.Accounts.{
  Accounts, get_user, get_user_by_email, get_user_password, get_user_password_by_id,
}
use rtk_account_manager.UserCache.Text.{normalize_email}
use rtk_account_manager.UserCache.Cache.{Cache, Layout, IsCache}
use rtk_account_manager.UserCache.Accounts.{
  Cached, cached_get_user, cached_get_user_by_email, cached_get_user_password,
  cached_get_user_password_by_id,
}
use rtk_account_manager.UserCache.Accounts.Coherence.{
  Separates, IsId, IsUserTable, IsCoherent, IsRight, seen, seen_auth,
}
use rtk_account_manager.UserCache.Accounts.Coherence.Reads.{
  read_user-IsRight, read_user_by_email-IsRight, read_password-IsRight,
  read_password_by_email-IsRight, cached_get-IsRight,
}
use rtk_account_manager.UserCache.Accounts.Coherence.Operations.{
  Write, account_view, run_write, run_write-AfterStep,
}
use rtk_account_manager.UserCache.Accounts.Coherence.Table.{run_write-IsUserTable}

-- A call of the store behind the cache.
pub data Call : Type 0 where
  write : Write → Time → Call
  read_user : String → Call
  read_user_by_email : String → Call
  read_password : String → Call
  read_password_by_email : String → Call

module _ (lower : Char → Char) {W : Type 0} (c : Cache W) where
  -- A call from an empty log.
  abbrev start : W → Cached W
  start w = record { cache = w; warnings = [] }

  -- The tables and the cache after a call, and its warnings.
  unfoldable pub run_call : Call → Accounts × W → Accounts × Cached W
  run_call (write op now) (db, w) = run_write lower c op now (db, start w)
  run_call (read_user id) (db, w) = (db, (cached_get_user lower c db id (start w)).1)
  run_call (read_user_by_email email) (db, w) =
      (db, (cached_get_user_by_email lower c db email (start w)).1)
  run_call (read_password id) (db, w) =
      (db, (cached_get_user_password_by_id lower c db id (start w)).1)
  run_call (read_password_by_email email) (db, w) =
      (db, (cached_get_user_password lower c db email (start w)).1)

  abbrev pub next : Call → Accounts × W → Accounts × W
  next call st = let out = run_call call st in (out.0, out.1.cache)

  unfoldable pub run_calls : List Call → Accounts × W → Accounts × W
  run_calls [] st = st
  run_calls (call ∷ calls) st = run_calls calls (next call st)

  -- A write logs no warning; a read asks for texts that share no key with others.
  abbrev pub IsAllowed : (String → Type 0) → Call → Accounts × W → Type 0
  IsAllowed IsPlain (write op now) st = (run_call (write op now) st).1.warnings ≡ []
  IsAllowed IsPlain (read_user id) st = IsId IsPlain id
  IsAllowed IsPlain (read_user_by_email email) st = IsPlain (normalize_email lower email)
  IsAllowed IsPlain (read_password id) st = IsId IsPlain id
  IsAllowed IsPlain (read_password_by_email email) st = IsPlain (normalize_email lower email)

  abbrev pub AreAllowed : (String → Type 0) → List Call → Accounts × W → Type 0
  AreAllowed IsPlain [] st = Unit
  AreAllowed IsPlain (call ∷ calls) st =
      IsAllowed IsPlain call st × AreAllowed IsPlain calls (next call st)

module _ (lower : Char → Char) (again : (ch : Char) → lower (lower ch) ≡ lower ch)
    (spaces : (ch : Char) → is_space (code (lower ch)) ≡ is_space (code ch)) {W : Type 0}
    (l : Layout W) (IsPlain : String → Type 0) (separates : Separates l IsPlain) (c : Cache W)
    (laws : IsCache l c) where
  -- The table is well formed and the cache agrees with it.
  abbrev IsGood : Accounts × W → Type 0
  IsGood (db, w) = IsUserTable IsPlain lower db.users × IsCoherent l account_view db.users w

  run_call-IsGood :
      (call : Call) (st : Accounts × W)
      → IsGood st
      → IsAllowed lower c IsPlain call st
      → IsGood (next lower c call st)
  unfolding run_call
  run_call-IsGood (write op now) (db, w) (table, coherent) quiet = (
    run_write-IsUserTable IsPlain lower c now db (start lower c w) table op,
    run_write-AfterStep lower c l laws now db (start lower c w) coherent op quiet,
  )
  run_call-IsGood (read_user id) (db, w) (table, coherent) is_id = (
    table,
    (read_user-IsRight lower l account_view IsPlain separates c laws db table again spaces
        (start lower c w) coherent id is_id).1,
  )
  run_call-IsGood (read_user_by_email email) (db, w) (table, coherent) plain = (
    table,
    (read_user_by_email-IsRight lower l account_view IsPlain separates c laws db table again spaces
        (start lower c w) coherent email plain).1,
  )
  run_call-IsGood (read_password id) (db, w) (table, coherent) is_id = (
    table,
    (read_password-IsRight lower l account_view IsPlain separates c laws db table again spaces
        (start lower c w) coherent id is_id).1,
  )
  run_call-IsGood (read_password_by_email email) (db, w) (table, coherent) plain = (
    table,
    (read_password_by_email-IsRight lower l account_view IsPlain separates c laws db table again
        spaces (start lower c w) coherent email plain).1,
  )

  run_calls-IsGood :
      (calls : List Call) (st : Accounts × W)
      → IsGood st
      → AreAllowed lower c IsPlain calls st
      → IsGood (run_calls lower c calls st)
  unfolding run_calls
  run_calls-IsGood [] st good allowed = good
  run_calls-IsGood (call ∷ calls) st good (first, rest) =
      run_calls-IsGood calls (next lower c call st) (run_call-IsGood call st good first) rest

  -- After any number of reads and writes through the cache, a read of a user answers as the store
  -- behind it does, but for developer_cloud_limit and updated_at, with the password's hash where it
  -- asks for that, and so with not_found for a user whom one of the writes has disabled. The writes
  -- are VerifyEmailToken, ActivateLoginToken, ActivateUserFromVerifiedSocialEmail,
  -- ResetPasswordWithToken, UpdateUserPassword and DisableCurrentUser, and none of them logs a
  -- warning, while a read may; the cache meets its laws and agrees with the table at first, and no
  -- two of the ids and addresses share a key.
  pub run_calls-IsRight :
      (calls : List Call) (db : Accounts) (w : W)
      → IsUserTable IsPlain lower db.users
      → IsCoherent l account_view db.users w
      → AreAllowed lower c IsPlain calls (db, w)
      → (id email : String) → IsId IsPlain id
      → IsPlain (normalize_email lower email)
      → let db' = (run_calls lower c calls (db, w)).0 in
        let s = start lower c (run_calls lower c calls (db, w)).1 in
        IsRight l account_view db'.users
          (seen l account_view)
          (get_user db' id)
          (cached_get_user lower c db' id s)
        × IsRight l account_view db'.users
            (seen l account_view)
            (get_user_by_email (normalize_email lower) db' email)
            (cached_get_user_by_email lower c db' email s)
        × IsRight l account_view db'.users
            (seen_auth l account_view)
            (get_user_password_by_id db' id)
            (cached_get_user_password_by_id lower c db' id s)
        × IsRight l account_view db'.users
            (seen_auth l account_view)
            (get_user_password db' (normalize_email lower email))
            (cached_get_user_password lower c db' email s)
  run_calls-IsRight calls db w table coherent allowed id email is_id plain =
      let (table', coherent') = run_calls-IsGood calls (db, w) (table, coherent) allowed in
      cached_get-IsRight lower l account_view IsPlain separates c laws _ table' again spaces _
        coherent' id email is_id plain
