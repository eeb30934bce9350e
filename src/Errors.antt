-- ===== src/Errors.antt =====
-- mihomoctl/errors.py: the exception classes, with their stable codes and exit codes.
use Prim.Native.String.{◌++◌}
use mihomo_userctl.Base.{ℕ, String, Option, none, some, ◌==◌, string_eq, if◌then◌else◌}

pub data ErrorClass : Type 0 where
  mihomoctl_error usage_error permission_scope_error config_error validation_error : ErrorClass
  not_found_error state_error observed_state_error health_blocked_error : ErrorClass
  transaction_error rollback_failed_error lock_error supply_chain_error : ErrorClass
  integration_error : ErrorClass

-- The class attribute `code`.
unfoldable pub default_code : ErrorClass → String
default_code mihomoctl_error = "error"
default_code usage_error = "usage-error"
default_code permission_scope_error = "scope-violation"
default_code config_error = "config-invalid"
default_code validation_error = "validation-failed"
default_code not_found_error = "not-found"
default_code state_error = "state-invalid"
default_code observed_state_error = "observed-state-failure"
default_code health_blocked_error = "health-blocked"
default_code transaction_error = "transaction-failed"
default_code rollback_failed_error = "rollback-failed"
default_code lock_error = "operation-in-progress"
default_code supply_chain_error = "supply-chain-check-failed"
default_code integration_error = "integration-error"

-- The class attribute `exit_code`.
unfoldable pub exit_code : ErrorClass → ℕ
exit_code observed_state_error = 1
exit_code health_blocked_error = 1
exit_code _ = 2

pub record MihomoctlError : Type 0 where
  pub class : ErrorClass
  pub code : String
  pub detail : Option String
  pub remediation : Option String

-- Python's `x or y` on a text that may be `None`.
abbrev given : Option String → Option String
given none = none
given (some s) = if s == "" then none else some s

abbrev or_default : Option String → String → String
or_default none d = d
or_default (some s) d = s

-- `__init__`: the code of the call, or that of the class.
unfoldable pub new : ErrorClass → Option String → Option String → Option String → MihomoctlError
unfolding default_code
new c code detail remediation = record {
  class = c;
  code = or_default (given code) (default_code c);
  detail = detail;
  remediation = remediation;
}

abbrev suffix : String → String → Option String → String
suffix before after none = ""
suffix before after (some s) = before ++ s ++ after

unfoldable pub render : MihomoctlError → String
render e = e.code ++ suffix ": " "" (given e.detail) ++ suffix " (" ")" (given e.remediation)

-- An exception that a call may raise: one of the program's, or of the kinds of Python's own that
-- its handlers tell apart.
pub data Exception : Type 0 where
  app : MihomoctlError → Exception
  os_error value_error key_error other_error : Exception

-- The program's exceptions, without the text for people that goes with the code.
abbrev pub raised : ErrorClass → String → Exception
raised c code = app (record { class = c; code = code; detail = none; remediation = none })
