-- ===== src/Channel/Fields.antt =====
-- The checks of single fields of internal/channel/channel.go.
pub mod Laws
use rtk_account_manager.Common.{
  ℕ, String, str_eq, Bool, true, false, ◌&&◌, ◌||◌, not, Option, none, some, List, [], ◌∷◌, any,
  ltb, ◌==◌, if◌then◌else◌, length, ℤ, pos, negsuc, is_zero_int, Time, is_zero, Result, ok, err,
  ◌>>=◌, ◌>>◌, refuse_if, GoError, Reason, field_error, must_be_non_empty, must_be_set,
  must_be_uuid, must_use_utc, too_many_options, invalid_option_code, duplicate_option,
  requires_device_logging,
}
use rtk_account_manager.Channel.Text.{is_blank, is_uuid, is_service_option_code}

unfoldable pub require_non_blank : String → String → Result (Unit {0})
require_non_blank field value = refuse_if (is_blank value) (field_error field must_be_non_empty)

unfoldable pub require_uuid : String → String → Result (Unit {0})
unfolding require_non_blank
require_uuid field value = do
  require_non_blank field value
  refuse_if (not (is_uuid value)) (field_error field must_be_uuid)

unfoldable pub validate_utc : String → Time → Result (Unit {0})
validate_utc field value =
    refuse_if (not (is_zero_int value.offset)) (field_error field must_use_utc)

-- `if value.IsZero() { … }` and `validateUTC`, which follow one another for every time.
unfoldable pub require_utc_time : String → Time → Result (Unit {0})
unfolding validate_utc
require_utc_time field value = do
  refuse_if (is_zero value) (field_error field must_be_set)
  validate_utc field value

unfoldable pub validate_required_strings : List (String × String) → Result (Unit {0})
unfolding require_non_blank
validate_required_strings [] = ok tt
validate_required_strings ((name, value) ∷ fields) = do
  require_non_blank name value
  validate_required_strings fields

unfoldable pub validate_lifecycle_payload_ids : String → String → Result (Unit {0})
unfolding require_uuid
validate_lifecycle_payload_ids org_id account_device_id = do
  require_uuid "payload.org_id" org_id
  require_uuid "payload.account_device_id" account_device_id

abbrev pub contains : List String → String → Bool
contains xs s = any (λ x. str_eq x s) xs

-- The loop over the options; `seen` is the map of those met.
unfoldable pub validate_options : String → List String → List String → Result (Unit {0})
validate_options field seen [] = ok tt
validate_options field seen (option ∷ options) = do
  refuse_if (not (is_service_option_code option)) (field_error field invalid_option_code)
  refuse_if (contains seen option) (field_error field duplicate_option)
  validate_options field (option ∷ seen) options

unfoldable pub validate_service_options : String → List String → Result (Unit {0})
unfolding validate_options
validate_service_options field options = do
  refuse_if (ltb 64 (length options)) (field_error field too_many_options)
  validate_options field [] options

abbrev is_retention : ℤ → Bool
is_retention (pos n) = n == 7 || n == 30 || n == 90
is_retention (negsuc n) = false

unfoldable pub validate_log_retention_days : List String → Option ℤ → Result (Unit {0})
validate_log_retention_days options none = ok tt
validate_log_retention_days options (some days) =
    refuse_if (not (is_retention days) || not (contains options "device_logging"))
      (field_error "payload.log_retention_days" requires_device_logging)
