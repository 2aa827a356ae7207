-- ===== src/Domain/Client.antt =====
-- apps/portal/src/domain/client/client.ts. A field of a patch is `none` when it is undefined, and a
-- nullable one holds an option inside.
use auth_sso.Base.{ℕ, String, Option, List, ◌==◌, or_else}
use auth_sso.Contracts.{portal_client_id, EntityStatus}
use auth_sso.Errors.{Checked, throw_if, rule_violation}
use Prim.Native.String

pub record Client : Type 0 where
  pub client_id : String
  pub name : String
  pub client_secret : String
  pub redirect_uris : List String
  pub scopes : List String
  pub homepage_url : Option String
  pub logo_url : Option String
  pub access_token_ttl : ℕ
  pub refresh_token_ttl : ℕ
  pub status : EntityStatus
  pub created_at : ℕ

pub record CreateClientInput : Type 0 where
  pub name : String
  pub redirect_uris : List String
  pub scopes : List String
  pub homepage_url : Option String
  pub logo_url : Option String
  pub access_token_ttl : ℕ
  pub refresh_token_ttl : ℕ

pub record ClientPatch : Type 0 where
  pub name : Option String
  pub redirect_uris : Option (List String)
  pub scopes : Option (List String)
  pub homepage_url : Option (Option String)
  pub logo_url : Option (Option String)
  pub access_token_ttl : Option ℕ
  pub refresh_token_ttl : Option ℕ
  pub status : Option EntityStatus

-- The generated id and secret are arguments.
unfoldable create_client : CreateClientInput → String → String → ℕ → Client
create_client input id secret now = record {
  client_id = id;
  name = input.name;
  client_secret = secret;
  redirect_uris = input.redirect_uris;
  scopes = input.scopes;
  homepage_url = input.homepage_url;
  logo_url = input.logo_url;
  access_token_ttl = input.access_token_ttl;
  refresh_token_ttl = input.refresh_token_ttl;
  status = EntityStatus.active;
  created_at = now;
}

unfoldable guard_portal_self_client : String → String → Checked
guard_portal_self_client client_id action = throw_if (client_id == portal_client_id) (
    rule_violation
      (String.◌++◌ "Portal 自身客户端是登录链路的一部分，不允许" (String.◌++◌ action "（请通过部署配置调整并重新初始化）")))

unfoldable apply_client_update : Client → ClientPatch → Client
apply_client_update client patch = record client {
  name = or_else patch.name client.name;
  redirect_uris = or_else patch.redirect_uris client.redirect_uris;
  scopes = or_else patch.scopes client.scopes;
  homepage_url = or_else patch.homepage_url client.homepage_url;
  logo_url = or_else patch.logo_url client.logo_url;
  access_token_ttl = or_else patch.access_token_ttl client.access_token_ttl;
  refresh_token_ttl = or_else patch.refresh_token_ttl client.refresh_token_ttl;
  status = or_else patch.status client.status;
}
