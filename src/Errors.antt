-- ===== src/Errors.antt =====
-- apps/portal/src/domain/shared/errors.ts and packages/contracts/src/errors.ts: the closed
-- vocabulary of error codes, the domain errors with their HTTP status, and code that may throw one.
use auth_sso.Base.{ℕ, String, Bool, true, false}
use Prim.Native.String

-- The members of `ERROR_CODE_VALUES`, one constructor for each key of its seven groups.
pub data ErrorCode : Type 0 where
  unauthorized forbidden not_found validation_error internal_error rate_limited : ErrorCode
  invalid_credentials account_disabled account_locked : ErrorCode
  refresh_token_invalid refresh_token_missing : ErrorCode
  invalid_code oauth_invalid_redirect_uri pkce_verification_failed invalid_client : ErrorCode
  unsupported_grant_type invalid_scope : ErrorCode
  user_already_exists username_already_exists email_already_exists : ErrorCode
  mobile_already_exists password_too_weak password_change_required : ErrorCode
  cannot_delete_self cannot_disable_self : ErrorCode
  department_already_exists department_has_children department_has_users : ErrorCode
  cannot_delete_root cannot_move_to_child : ErrorCode
  role_already_exists cannot_delete_system_role cannot_modify_system_role : ErrorCode
  permission_already_exists client_already_exists : ErrorCode

-- An instance of `DomainError`: the class is told by its code and status.
pub record DomainError : Type 0 where
  pub code : ErrorCode
  pub message : String
  pub status : ℕ

abbrev entity_not_found : String → String → DomainError
entity_not_found entity id = record {
  code = not_found;
  message = String.◌++◌ entity (String.◌++◌ " [" (String.◌++◌ id "] 不存在"));
  status = 404;
}

-- `new BusinessRuleViolationError(rule, code)`
abbrev pub rule_violation_as : ErrorCode → String → DomainError
rule_violation_as code rule = record { code = code; message = rule; status = 422 }

-- The same with its default code.
abbrev pub rule_violation : String → DomainError
rule_violation = rule_violation_as validation_error

abbrev pub unauthenticated : DomainError
unauthenticated = record { code = unauthorized; message = "未登录或会话已失效"; status = 401 }

abbrev pub credentials_error : DomainError
credentials_error = record { code = invalid_credentials; message = "邮箱或密码错误"; status = 401 }

-- `new ForbiddenError(message)`
abbrev pub forbidden_error : String → DomainError
forbidden_error message = record { code = forbidden; message = message; status = 403 }

abbrev pub password_change_error : DomainError
password_change_error = record {
  code = password_change_required;
  message = "请先修改初始密码后再继续";
  status = 403;
}

abbrev pub account_status_error : ErrorCode → String → DomainError
account_status_error code message = record { code = code; message = message; status = 403 }

abbrev pub invalid_client_error : String → DomainError
invalid_client_error message = record { code = invalid_client; message = message; status = 401 }

abbrev pkce_error : DomainError
pkce_error = record { code = pkce_verification_failed; message = "PKCE 验证失败"; status = 400 }

abbrev pub redirect_uri_error : DomainError
redirect_uri_error = record {
  code = oauth_invalid_redirect_uri;
  message = "回调地址与应用注册的不匹配";
  status = 400;
}

abbrev pub invalid_scope_error : DomainError
invalid_scope_error = record {
  code = invalid_scope;
  message = "请求的 scope 未获 Client 授权";
  status = 400;
}

-- What code that may throw a domain error gives back.
pub data Result {ℓ} (A : Type ℓ) : Type ℓ where
  ok : A → Result A
  err : DomainError → Result A

-- That of a function which returns nothing.
abbrev pub Checked : Type 0
Checked = Result (Unit {0})

-- `if (test) throw error`
abbrev pub throw_if : Bool → DomainError → Checked
throw_if true e = err e
throw_if false e = ok tt
