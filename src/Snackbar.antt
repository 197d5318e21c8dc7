-- ===== src/Snackbar.antt =====
-- web/frontend/src/app/services/mat-snackbar.service.ts: the texts that the components display.
-- The snackbar widget is Angular Material's; a component's handlers list what they display.
use Prim.Native.String
use hellogit.Common.{String}

-- `generate_return_success_snackbar_message`
abbrev pub success_message : String → String
success_message message = String.◌++◌ "Successfully " message

-- `generate_return_fail_snackbar_message`
abbrev pub fail_message : String → String
fail_message message = String.◌++◌ "Failed " message

-- `generate_return_error_snackbar_message`
abbrev pub error_message : String → String
error_message message = String.◌++◌ "Error " message
