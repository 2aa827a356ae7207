-- ===== src/Domain/Auth/Authorize/Access.antt =====
-- Who is let into which client.
use auth_sso.Base.{
  String, ◌≡◌, ◌↔◌, ◌⊎◌, inl, inr, refl, sym, ap, ◌∙◌, Bool, true, false, not, List, [], ◌∷◌, arith,
  if◌then◌else◌, any, includes, includes_iff, Among, any-Among, Among-any, Among-keep, if_true,
}
use auth_sso.Contracts.{UserStatus, user_is_active, entity_is_active}
use auth_sso.Contracts.Authorization.{is_admin_role, is_admin_role_iff}
use auth_sso.Domain.Auth.Authorize.{
  AuthorizeRole, allowed, refused, unauthorized_client, user_inactive, role_codes, live_roles,
  check_user_client_access, authorize_with, validate_authorization,
}

-- The role, if ACTIVE, opens the client: it is SUPER_ADMIN or is bound to the client.
Opens : String → AuthorizeRole → Type 0
Opens client r = (r.code ≡ "SUPER_ADMIN") ⊎ Among client r.client_ids

Opened : String → List AuthorizeRole → Type 0
Opened client roles = (r : AuthorizeRole) × Among r roles × Opens client r

abbrev unauthorized : String
unauthorized = "您没有访问该系统的权限，请联系管理员分配。"

abbrev inactive : String
inactive = "您的账号已被锁定或禁用，请联系管理员。"

code-holder :
    (roles : List AuthorizeRole) (c : String)
    → Among c (role_codes roles)
    → (r : AuthorizeRole) × Among r roles × (r.code ≡ c)
code-holder [] c m = elim m [ ]
code-holder (r ∷ rs) c m = elim m [
  | inl e ↦ (r, inl refl, sym e)
  | inr m' ↦ let (s, k, e) = code-holder rs c m' in (s, inr k, e)
]

Among-role_codes :
    (roles : List AuthorizeRole) (r : AuthorizeRole) (c : String)
    → Among r roles
    → r.code ≡ c
    → Among c (role_codes roles)
Among-role_codes [] r c m e = elim m [ ]
Among-role_codes (s ∷ rs) r c m e = elim m [
  | inl q ↦ inl (sym e ∙ ap (λ x. x.code) q)
  | inr m' ↦ inr (Among-role_codes rs r c m' e)
]

-- The access check on the roles of an active user.
Opened-check :
    (client : String) (roles : List AuthorizeRole)
    → check_user_client_access client roles ≡ allowed
    → Opened client roles
unfolding check_user_client_access Opened Opens
Opened-check client roles h = by_admin (is_admin_role (role_codes roles)) refl h
  where
    by_role :
        (b : Bool)
        → any (λ r. includes r.client_ids client) roles ≡ b
        → (if not b then refused unauthorized_client unauthorized else allowed) ≡ allowed
        → Opened client roles
    by_role true e q =
        let (r, m, i) = any-Among (λ r. includes r.client_ids client) roles e in
        (r, m, inr ((includes_iff r.client_ids client).0 i))
    by_role false e q = cc

    by_admin :
        (b : Bool)
        → is_admin_role (role_codes roles) ≡ b
        → (if b
            then allowed
            else if not (any (λ r. includes r.client_ids client) roles)
            then refused unauthorized_client unauthorized
            else allowed)
          ≡ allowed
        → Opened client roles
    by_admin true e q =
        let (r, m, i) =
          code-holder roles "SUPER_ADMIN" ((is_admin_role_iff (role_codes roles)).0 e) in
        (r, m, inl i)
    by_admin false e q = by_role _ refl q

check-Opened :
    (client : String) (roles : List AuthorizeRole)
    → Opened client roles
    → check_user_client_access client roles ≡ allowed
unfolding check_user_client_access Opened Opens
check-Opened client roles (r, m, inl c) =
    if_true _ _
      ((is_admin_role_iff (role_codes roles)).1 (Among-role_codes roles r "SUPER_ADMIN" m c))
check-Opened client roles (r, m, inr i) = ground (
  arith,
  Among-any (λ r. includes r.client_ids client) roles r m ((includes_iff r.client_ids client).1 i),
)

with-Opened :
    (client : String) (roles : List AuthorizeRole)
    → (authorize_with client roles ≡ allowed) ↔ Opened client roles
unfolding Opened
with-Opened client [] = (λ h. cc, λ (r, m, o). elim m [ ])
with-Opened client (r ∷ rs) = (Opened-check client (r ∷ rs), check-Opened client (r ∷ rs))

-- `validateAuthorization` lets a user into a client exactly if the account is ACTIVE and some
-- ACTIVE role of the user is SUPER_ADMIN or is bound to that client.
pub authorization_iff :
    (client : String) (status : UserStatus) (roles : List AuthorizeRole)
    → (validate_authorization client status roles ≡ allowed) ↔ (
        (user_is_active status ≡ true)
        × (r : AuthorizeRole) × Among r roles
        × (entity_is_active r.status ≡ true)
        × ((r.code ≡ "SUPER_ADMIN") ⊎ Among client r.client_ids))
unfolding validate_authorization Opened Opens
authorization_iff client status roles = by_status (user_is_active status)
  where
    by_status :
        (b : Bool)
        → ((if not b
              then refused user_inactive inactive
              else authorize_with client (live_roles roles))
            ≡ allowed)
          ↔ ((b ≡ true)
              × (r : AuthorizeRole) × Among r roles
              × (entity_is_active r.status ≡ true)
              × ((r.code ≡ "SUPER_ADMIN") ⊎ Among client r.client_ids))
    by_status true = (
      (λ h.
          let (r, m, o) = (with-Opened client (live_roles roles)).0 h in
          let (k, e) = (Among-keep (λ x. entity_is_active x.status) roles r).0 m in
          (refl, r, k, e, o)),
      λ (_, r, m, e, o).
          (with-Opened client (live_roles roles)).1
            (r, (Among-keep (λ x. entity_is_active x.status) roles r).1 (m, e), o),
    )
    by_status false = (λ h. cc, λ w. cc)
