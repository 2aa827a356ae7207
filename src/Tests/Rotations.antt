-- ===== src/Tests/Rotations.antt =====
-- Rotations of refresh tokens.
use auth_sso.Base.{◌≡◌, refl, true, none, some, [], ◌∷◌, ◌≤◌, ◌+◌, false}
use auth_sso.Base.{lookup, insert}
use auth_sso.Session.Jti.{track_user_jti}
use auth_sso.Permissions.{
  resolve_issuance_permission, get_user_permission_context, query_users, store_context, context_of,
  active_roles, active_codes, all_codes, dedup_from, dept_ids_of, role_refs,
}
use auth_sso.Tokens.Access.{AccessRequest, access_claims, sign_access_token, access_token_lifetime}
use auth_sso.Tokens.Ttl.{finite_nonneg, clamp_token_ttl}
use auth_sso.Tokens.Rows.{find_by_hash}
use auth_sso.Tokens.Rows.Updates.{FamilyRevoked, LiveWithin}
use auth_sso.Tokens.Rotation.{
  rotated, RefreshTokenResult, rotate_transaction, rotate_refresh_token, finish_rotation,
}
use auth_sso.Tokens.Rotation.Writes.{done}
use auth_sso.Tokens.Rotation.OneTime.{rotation_once}
use auth_sso.Tokens.Rotation.Grants.{IsGranted, rotation_grants}
use auth_sso.Tokens.Rotation.Failure.{failed_rotation_clean}
use auth_sso.Tests.Data.{services, draws, token, start, empty_jtis}

rotation_once_example :
    ((rotate_transaction services "rt_1" none draws
        (rotate_transaction services "rt_1" none draws (token ∷ [])).1).0
      ≡ none)
    × FamilyRevoked "alice" "portal"
        (rotate_transaction services "rt_1" none draws
          (rotate_transaction services "rt_1" none draws (token ∷ [])).1).1
unfolding rotate_transaction find_by_hash
rotation_once_example =
    rotation_once services "rt_1" none none draws draws (token ∷ [])
      (rotate_transaction services "rt_1" none draws (token ∷ [])).1 (rotated services token draws)
      refl done

abbrev pub granted : RefreshTokenResult
granted = record {
  access_token = "jwt";
  refresh_token = "rt_2";
  expires_in = 3600;
  refresh_expires_in = 604800;
  scope = "openid offline_access";
}

rotation_grants_example :
    IsGranted services "rt_1"
      (some "portal")
      draws
      (token ∷ [])
      granted
      (rotate_refresh_token services true "rt_1" (some "portal") draws start).1.tokens
unfolding rotate_refresh_token rotate_transaction find_by_hash finish_rotation
    resolve_issuance_permission get_user_permission_context query_users store_context context_of
    active_roles active_codes all_codes dedup_from dept_ids_of role_refs sign_access_token
    access_claims track_user_jti clamp_token_ttl lookup insert
rotation_grants_example =
    rotation_grants services true "rt_1" (some "portal") draws start granted refl

failed_rotation_clean_example :
    LiveWithin (token ∷ []) (rotate_refresh_token services true "rt_9" none draws start).1.tokens
unfolding rotate_refresh_token rotate_transaction find_by_hash finish_rotation
failed_rotation_clean_example = failed_rotation_clean services "rt_9" none draws start refl

abbrev request : AccessRequest
request = record {
  user_id = "alice";
  client_id = "portal";
  scope = some "openid";
  client_ttl = some (finite_nonneg 30 false);
  session_id = none;
  jti = "j1";
  now = 5000;
}

access_token_lifetime_example :
    ((access_claims request).exp ≡ (access_claims request).iat + 60) × (60 ≤ 60) × (60 ≤ 86400)
unfolding access_claims sign_access_token clamp_token_ttl track_user_jti lookup insert
access_token_lifetime_example =
    access_token_lifetime (λ c. some "jwt") request empty_jtis
      (record { token = "jwt"; jti = "j1"; expires_in = 60 }) refl
