-- ===== src/Tests/UserCache.antt =====
-- The cache of users and the wire protocol at concrete inputs.
use Prim.Native.Char.{Char}
use rtk_account_manager.Common.{
  String, ◌≡◌, ◌≢◌, refl, sym, ap, inl, inr, false, none, List, [], ◌∷◌, ◌++◌, pos, negsuc, arith,
  str_eq, eq_iff,
}
use rtk_account_manager.Model.User.{User}
use rtk_account_manager.Channel.Text.{is_space}
use rtk_account_manager.Store.Rows.{find_row, update_row}
use rtk_account_manager.Store.Selection.{filter_by}
use rtk_account_manager.Store.Accounts.{
  Accounts, find_enabled, update_enabled, get_user, get_user_by_email, get_user_password,
  get_user_password_by_id,
}
use rtk_account_manager.Store.Accounts.Members.{
  ensure_not_last_active_owner, ensure_none_last, owned_organizations,
}
use rtk_account_manager.Store.Accounts.Passwords.{disable_current_user, update_user_password}
use rtk_account_manager.UserCache.Text.{trim, normalize_email}
use rtk_account_manager.UserCache.Cache.{user_entry, email_entry, auth_entry}
use rtk_account_manager.UserCache.Accounts.{
  Cached, cached_get_user, cached_get_user_by_email, cached_get_user_password,
  cached_get_user_password_by_id, cached_update_user_password, cached_disable_current_user,
}
use rtk_account_manager.UserCache.Accounts.Coherence.{
  Separates, IsUserTable, IsCoherent, IsRight, seen, seen_auth,
}
use rtk_account_manager.UserCache.Accounts.Coherence.Reads.{cached_get-IsRight}
use rtk_account_manager.UserCache.Accounts.Coherence.Operations.{
  account_view, update_password, disable, run_write,
}
use rtk_account_manager.UserCache.Accounts.Coherence.Histories.{
  Call, write, read_password_by_email, AreAllowed, run_call, run_calls, run_calls-IsRight,
}
use rtk_account_manager.UserCache.Resp.{
  texts, integer, scan, nil, done, panicked, out_of_fuel, write_resp_command, read_resp,
}
use rtk_account_manager.UserCache.Resp.Decimal.{Bytes, decimal, parse_int}
use rtk_account_manager.UserCache.Resp.RoundTrip.{read_resp-write_resp_command}
use rtk_account_manager.UserCache.Resp.Termination.{read_resp-Ends}
use rtk_account_manager.Tests.Samples.{after}
use rtk_account_manager.Tests.Accounts.{ann, accounts}
use rtk_account_manager.Tests.MemoryCache.{Memory, put, put-cases, memory, layout, memory-IsCache}

-- SET k 42, in bytes
abbrev set_command : List Bytes
set_command = (83 ∷ 69 ∷ 84 ∷ []) ∷ (107 ∷ []) ∷ (52 ∷ 50 ∷ []) ∷ []

written :
    write_resp_command set_command
    ≡ 42 ∷ 51 ∷ 13 ∷ 10 ∷ 36 ∷ 51 ∷ 13 ∷ 10 ∷ 83 ∷ 69 ∷ 84 ∷ 13 ∷ 10 ∷ 36 ∷ 49 ∷ 13 ∷ 10 ∷ 107 ∷ 13
      ∷ 10 ∷ 36 ∷ 50 ∷ 13 ∷ 10 ∷ 52 ∷ 50 ∷ 13 ∷ 10 ∷ []
unfolding write_resp_command decimal
written = refl

-- The reply to SCAN: the cursor 0 and one key.
scanned :
    read_resp 1000 5 (
      42 ∷ 50 ∷ 13 ∷ 10 ∷ 36 ∷ 49 ∷ 13 ∷ 10 ∷ 48 ∷ 13 ∷ 10 ∷ 42 ∷ 49 ∷ 13 ∷ 10 ∷ 36 ∷ 49 ∷ 13 ∷ 10
      ∷ 107 ∷ 13 ∷ 10 ∷ [])
    ≡ done (scan (48 ∷ []) ((107 ∷ []) ∷ []), [])
unfolding read_resp parse_int
scanned = refl

-- `:-7`, `$-1` and the header of a text of a gigabyte
read_others :
    (read_resp 1000 2 (58 ∷ 45 ∷ 55 ∷ 13 ∷ 10 ∷ []) ≡ done (integer (negsuc 6), []))
    × (read_resp 1000 2 (36 ∷ 45 ∷ 49 ∷ 13 ∷ 10 ∷ []) ≡ done (nil, []))
    × (read_resp 1000 2 (36 ∷ 49 ∷ 48 ∷ 48 ∷ 48 ∷ 48 ∷ 48 ∷ 48 ∷ 48 ∷ 48 ∷ 13 ∷ 10 ∷ []) ≡ panicked)
unfolding read_resp parse_int
read_others = (refl, refl, refl)

read_resp-write_resp_command_example :
    read_resp 1000 2 (write_resp_command set_command ++ 43 ∷ []) ≡ done (texts set_command, 43 ∷ [])
read_resp-write_resp_command_example =
    read_resp-write_resp_command 1000 (omega arith) 0 set_command (43 ∷ [])
      (omega arith, (omega arith, (omega arith, tt))) (omega arith)

read_resp-Ends_example :
    (read_resp 1000 4 (42 ∷ 49 ∷ 10 ∷ []) ≡ read_resp 1000 9 (42 ∷ 49 ∷ 10 ∷ []))
    × (read_resp 1000 4 (42 ∷ 49 ∷ 10 ∷ []) ≢ out_of_fuel)
read_resp-Ends_example = read_resp-Ends 1000 4 9 (42 ∷ 49 ∷ 10 ∷ []) (omega arith) (omega arith)

abbrev same : Char → Char
same ch = ch

-- A cache that has Ann's password, with a user whose limit is zero.
abbrev cached_ann : User
cached_ann = record ann.user { developer_cloud_limit = pos 0 }

abbrev with_ann : Memory
with_ann = record {
  user = λ id. none;
  email = put "ann@example.com" "u-1" (λ email. none);
  auth = put "u-1" (cached_ann, "h-1") (λ id. none);
}

separates : Separates layout (λ s. Unit {0})
separates = record { ids = λ i j p q h. h; emails = λ e f p q h. h }

apart : (s t : String) → str_eq s t ≡ false → s ≢ t
apart s t test h = cc (test, (eq_iff s t).1 h)

trimmed : trim "u-2" ≡ "u-2"
unfolding trim is_space
trimmed = refl

table : IsUserTable (λ s. Unit {0}) same accounts.users
unfolding trim normalize_email is_space
table = record {
  distinct_ids = ((λ h. apart "u-1" "u-2" refl h, tt), (tt, tt));
  distinct_emails = ((λ h. apart "ann@example.com" "bob@example.com" refl h, tt), (tt, tt));
  ids = ((tt, refl), ((tt, refl), tt));
  emails = ((tt, refl), ((tt, refl), tt));
}

coherent : IsCoherent layout account_view accounts.users with_ann
unfolding find_enabled find_row trim is_space
coherent (user_entry k u) h = cc (h)
coherent (email_entry k id) h = elim (put-cases "ann@example.com" "u-1" (λ email. none) k id h) [
  | inl other ↦ cc (other.0)
  | inr own ↦ (ann, refl, sym own.0, own.1)
]
coherent (auth_entry k u hash) h =
    elim (put-cases "u-1" (cached_ann, "h-1") (λ id. none) k (u, hash) h) [
      | inl other ↦ cc (other.0)
      | inr own ↦ (
        ann,
        refl,
        sym own.0,
        sym (ap (λ (a : User × String). account_view a.0) own.1),
        sym (ap (λ (a : User × String). a.1) own.1),
      )
    ]

abbrev start : Cached Memory
start = record { cache = with_ann; warnings = [] }

cached_get-IsRight_example :
    IsRight layout account_view accounts.users
      (seen layout account_view)
      (get_user accounts "u-2")
      (cached_get_user same memory accounts "u-2" start)
    × IsRight layout account_view accounts.users
        (seen layout account_view)
        (get_user_by_email (normalize_email same) accounts " ann@example.com ")
        (cached_get_user_by_email same memory accounts " ann@example.com " start)
    × IsRight layout account_view accounts.users
        (seen_auth layout account_view)
        (get_user_password_by_id accounts "u-2")
        (cached_get_user_password_by_id same memory accounts "u-2" start)
    × IsRight layout account_view accounts.users
        (seen_auth layout account_view)
        (get_user_password accounts (normalize_email same " ann@example.com "))
        (cached_get_user_password same memory accounts " ann@example.com " start)
cached_get-IsRight_example =
    cached_get-IsRight same layout account_view (λ s. Unit {0}) separates memory memory-IsCache
      accounts table (λ ch. refl) (λ ch. refl) start coherent "u-2" " ann@example.com "
      (tt, trimmed) tt

-- Ann is read, her password is changed, and Bob is disabled.
abbrev calls : List Call
calls =
    read_password_by_email "ann@example.com"
    ∷ write (update_password "u-1" "h-9") (after 5)
    ∷ write (disable "u-2") (after 6)
    ∷ []

-- What the calls ask for: the texts are trimmed, and the writes log nothing.
allowed : AreAllowed same memory (λ s. Unit {0}) calls (accounts, with_ann)
unfolding run_call run_write cached_update_user_password cached_disable_current_user
    cached_get_user_password update_user_password disable_current_user get_user_password_by_id
    find_enabled update_enabled find_row update_row ensure_none_last ensure_not_last_active_owner
    owned_organizations filter_by
allowed = (tt, (refl, (refl, tt)))

abbrev after_calls : Accounts × Memory
after_calls = run_calls same memory calls (accounts, with_ann)

run_calls-IsRight_example :
    IsRight layout account_view after_calls.0.users
      (seen layout account_view)
      (get_user after_calls.0 "u-2")
      (cached_get_user same memory after_calls.0 "u-2"
        (record { cache = after_calls.1; warnings = [] }))
    × IsRight layout account_view after_calls.0.users
        (seen layout account_view)
        (get_user_by_email (normalize_email same) after_calls.0 " ann@example.com ")
        (cached_get_user_by_email same memory after_calls.0 " ann@example.com "
          (record { cache = after_calls.1; warnings = [] }))
    × IsRight layout account_view after_calls.0.users
        (seen_auth layout account_view)
        (get_user_password_by_id after_calls.0 "u-2")
        (cached_get_user_password_by_id same memory after_calls.0 "u-2"
          (record { cache = after_calls.1; warnings = [] }))
    × IsRight layout account_view after_calls.0.users
        (seen_auth layout account_view)
        (get_user_password after_calls.0 (normalize_email same " ann@example.com "))
        (cached_get_user_password same memory after_calls.0 " ann@example.com "
          (record { cache = after_calls.1; warnings = [] }))
run_calls-IsRight_example =
    run_calls-IsRight same (λ ch. refl) (λ ch. refl) layout (λ s. Unit {0}) separates memory
      memory-IsCache calls accounts with_ann table coherent allowed "u-2" " ann@example.com "
      (tt, trimmed) tt
