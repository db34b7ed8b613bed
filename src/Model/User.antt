-- ===== src/Model/User.antt =====
-- internal/model/model.go: a user, as the API returns it.
use rtk_account_manager.Common.{String, Bool, Option, ℤ, Time}

pub record User : Type 0 where
  pub id : String
  pub email : String
  pub display_name : Option String
  pub email_verified : Bool
  pub email_verified_at : Option Time
  pub signup_pending_verification : Bool
  pub developer_cloud_limit : ℤ
  pub created_at : Time
  pub updated_at : Time
  pub disabled_at : Option Time
