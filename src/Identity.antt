-- ===== src/Identity.antt =====
-- src/common/controller_identity.h: which device ids belong to temporary controllers.
use text.Mathlib.Text.{starts_with}
use crossdesk_server.Common.{String, Bool, ◌||◌, ◌==◌, string_key}

unfoldable pub is_temporary_controller_registration : String → Bool
is_temporary_controller_registration id = id == "web" || id == "cli"

unfoldable pub is_temporary_controller_id : String → Bool
is_temporary_controller_id id = starts_with id "web-" || starts_with id "cli-"
