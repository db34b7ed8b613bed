-- ===== src/Store/Accounts/Members.antt =====
-- internal/store/store.go: the members of an organization, as far as disabling a user reads them.
use rtk_account_manager.Common.{
  String, str_eq, Bool, ◌&&◌, not, Option, none, some, is_some, List, [], ◌∷◌, map, length, ◌==◌,
  Result, ok, ◌>>=◌, ◌>>◌, refuse_if, plain,
}
use rtk_account_manager.Store.Accounts.{
  UserRow, OrganizationMember, Accounts, user_key, find_enabled,
}
use rtk_account_manager.Store.Rows.{find_row}
use rtk_account_manager.Store.Selection.{filter_by}
use rtk_account_manager.Store.Tables.{or_not_found}

-- organization_id = $1 AND user_id = $2, which is the primary key
abbrev is_member : String → String → OrganizationMember → Bool
is_member org_id user_id m = str_eq m.organization_id org_id && str_eq m.user_id user_id

abbrev first_of : {A : Type 0} → List A → Option A
first_of [] = none
first_of (x ∷ xs) = some x

abbrev pub find_member : String → String → List OrganizationMember → Option OrganizationMember
find_member org_id user_id members = first_of (filter_by (is_member org_id user_id) members)

-- An active owner of the organization other than the user.
abbrev is_other_active_owner : String → String → List UserRow → OrganizationMember → Bool
is_other_active_owner org_id user_id users m =
    str_eq m.organization_id org_id
    && str_eq m.role "owner"
    && not (is_some m.disabled_at)
    && not (str_eq m.user_id user_id)
    && is_some (find_enabled m.user_id users)

-- ensureNotLastActiveOwnerTx
unfoldable pub ensure_not_last_active_owner : Accounts → String → String → Result (Unit {0})
ensure_not_last_active_owner db org_id user_id = do
  m ← or_not_found (find_member org_id user_id db.members)
  refuse_if
      (str_eq m.role "owner"
        && length (filter_by (is_other_active_owner org_id user_id db.users) db.members) == 0)
      (plain "last owner cannot be removed or downgraded")

-- SELECT organization_id … WHERE user_id = $1 AND role = 'owner'
unfoldable pub owned_organizations : Accounts → String → List String
owned_organizations db user_id =
    map (λ m. m.organization_id)
      (filter_by (λ m. str_eq m.user_id user_id && str_eq m.role "owner") db.members)

-- for _, orgID := range ownerOrgIDs
unfoldable pub ensure_none_last : Accounts → String → List String → Result (Unit {0})
unfolding ensure_not_last_active_owner
ensure_none_last db user_id [] = ok tt
ensure_none_last db user_id (org_id ∷ rest) =
    ensure_not_last_active_owner db org_id user_id >> ensure_none_last db user_id rest

-- getMemberTx: the membership and the user's row.
unfoldable pub get_member : Accounts → String → String → Result (OrganizationMember × UserRow)
get_member db org_id user_id = do
  m ← or_not_found (find_member org_id user_id db.members)
  r ← or_not_found (find_row user_key user_id db.users)
  ok (m, r)
