-- ===== src/Tests/Channel.antt =====
-- The look-up of routes and the validation of service options.
use rtk_account_manager.Common.{String, ◌≡◌, refl, ◌≤◌, inl, ok, List, [], ◌∷◌, length}
use rtk_account_manager.Channel.Types.{deactivate_requested}
use rtk_account_manager.Channel.Routes.{route_for_message_type}
use rtk_account_manager.Channel.Routes.Laws.{command_route, route_for_message_type_iff}
use rtk_account_manager.Channel.Text.{is_service_option_code}
use rtk_account_manager.Channel.Fields.{validate_service_options}
use rtk_account_manager.Channel.Fields.Laws.{HasCodes, IsDistinct, validate_service_options_iff}

route_for_message_type_iff_example :
    route_for_message_type "DeviceDeactivateRequested" ≡ ok command_route
route_for_message_type_iff_example =
    (route_for_message_type_iff "DeviceDeactivateRequested" command_route).1
      (deactivate_requested, refl, inl (tt, refl))

abbrev options : List String
options = "device_logging" ∷ "mqtt" ∷ []

validate_service_options_iff_example : (length options ≤ 64) × HasCodes options × IsDistinct options
unfolding validate_service_options is_service_option_code
validate_service_options_iff_example =
    (validate_service_options_iff "payload.service_options" options).0 refl
