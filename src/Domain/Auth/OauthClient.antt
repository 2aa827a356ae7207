-- ===== src/Domain/Auth/OauthClient.antt =====
-- apps/portal/src/domain/auth/oauth-client.ts: the checks of the client's status and of the
-- redirect URI.
use auth_sso.Base.{
  String, ◌≡◌, ◌↔◌, not, Option, none, some, List, arith, includes, includes_iff, Among,
}
use auth_sso.Contracts.{EntityStatus, entity_is_active}
use auth_sso.Errors.{Checked, ok, err, throw_if, invalid_client_error, redirect_uri_error}

-- By the status of the row, if there is one.
unfoldable pub validate_client_active : Option EntityStatus → Checked
validate_client_active none = err (invalid_client_error "该应用系统已停用或不存在，请联系管理员。")
validate_client_active (some status) =
    throw_if (not (entity_is_active status)) (invalid_client_error "该应用系统已停用或不存在，请联系管理员。")

unfoldable pub validate_redirect_uri : List String → String → Checked
validate_redirect_uri uris uri = throw_if (not (includes uris uri)) redirect_uri_error

-- A redirect URI passes exactly if the client registered that very text, no prefix of it.
pub redirect_uri_exact :
    (uris : List String) (uri : String) → (validate_redirect_uri uris uri ≡ ok tt) ↔ Among uri uris
unfolding validate_redirect_uri
redirect_uri_exact uris uri = ground (arith, includes_iff uris uri)
