-- ===== src/Lib.antt =====
-- auth-sso: a portal that is an OAuth 2.1 authorization server with role-based access control, and
-- a gateway in front of it. This library models the portal's core, apps/portal/src, with the
-- vocabulary that it shares with its clients, packages/contracts/src.
--
-- Parts, and how they interact. A request to exchange an authorization code or to rotate a refresh
-- token reads and writes tables of PostgreSQL, reads the permission context of the user behind a
-- cache in Redis, signs an access token, and tracks its jti in Redis, where a later revocation
-- finds it. The administration of users, roles, permissions, clients and departments is pure
-- functions of the domain, which the routes call; what hands out rights runs in a transaction that
-- first compares the operator's own rights with those handed out.
--
--   Base             comparisons of JavaScript, lists, maps with text keys, integers
--   Errors           domain/shared/errors.ts, contracts/errors.ts: the domain errors, and Result for
--                    code that may throw one
--   Contracts        contracts/index.ts, authorization.ts, admin-roles.ts: statuses, canAny, canAll
--   Session          lib/session/revoke.ts: revokeJti, isJtiRevoked, trackUserJti,
--                    revokeUserAccessByUserId over the blocklist and the hashes of users
--   Permissions      lib/permissions.ts: getUserPermissionContext with its three kinds of cache
--                    keys, resolveIssuancePermission, refreshUserPermissionCache
--   Tokens.Ttl       clampTokenTtl of lib/auth/token.ts
--   Tokens.Access    signAccessToken of the same file
--   Tokens.Rows      lib/auth/token/revocation.ts over the table refresh_tokens
--   Tokens.Rotation  rotateRefreshToken of lib/auth/token.ts: its transaction, the steps after the
--                    commit, and their compensation
--   Tokens.Codes     the table authorization_codes, claimAuthorizationCode, findConsumedCode
--   Tokens.Pkce      verifyPKCE of domain/auth/oauth-code.ts
--   Tokens.Grant     exchangeAuthorizationCode of lib/auth/oauth-grant.ts, with signIdToken and
--                    issueRefreshToken
--   Domain.User, Domain.Department, Domain.Role, Domain.Permission, Domain.Client
--                    domain/*/*.ts: the entities, their creation and update, and their guards
--   Domain.Permission.Sync
--                    domain/permission/permission-sync.ts
--   Domain.Auth      domain/auth/oauth-authorize.ts, login.ts, and the checks of oauth-client.ts
--   Authz.Directory  the tables of users, roles, permissions and departments, and the joins over them
--   Authz.Scope      lib/authz/data-scope.ts: the departments that an operator reaches
--   Authz.Operator   lib/authz/operator.ts: assertCanMutateAdminTarget, assertCanMutateRoleTarget
--   Authz.Assignment, Authz.RolePermissions
--                    lib/user-role-assignment.ts and role-permission-assignment.ts over withScopedRow
--                    of lib/authz/write.ts, with their audit rows
--   Authz.Check      checkPermission of lib/auth/check-permission.ts over the permission context
--   Tokens.Keys      lib/auth/token/signing-keys.ts over the table jwks and the cache of a process, and
--                    app/api/auth/jwks/route.ts
--   Tokens.Verify    verifyAccessToken of lib/auth/token.ts
--   Crypto           hexToBytes of lib/crypto.ts and the comparison of digests
--   Authz.Identity   lib/auth/verify-jwt.ts and gateway-hmac.ts: resolveIdentity
--   Oauth.Clients    lib/auth/client-credentials.ts, oauth-helpers.ts and the secrets of
--                    domain/auth/oauth-client.ts
--   Oauth.Endpoints  app/api/auth/oauth2/revoke/route.ts and introspect/route.ts
--   Oauth.AuthRequests, Oauth.Authorization
--                    lib/session/auth-request-store.ts and app/api/auth/oauth2/authorize/route.ts
--   Login            app/api/auth/login/route.ts, with writeLoginLog of lib/audit.ts
--   Logout           performRevocation of app/api/auth/logout/route.ts
--   Refresh          app/api/auth/refresh/route.ts
--   Account          domain/auth/password.ts, password-change.ts, lib/account/change-password.ts
--   Batch, Effects   lib/batch.ts and lib/auth/authorization-effects.ts: the convergence after a
--                    change of rights
--   BruteForce       lib/auth/brute-force.ts: the counters of failed logins for an account at an
--                    address and for an address, on Redis or from the login log
--   Tests            concrete data, and the theorems applied to it
--
-- Conventions. A function of the model has the name of the source's in snake case. A table is the
-- list of its rows, a key of Redis an entry of a map with its deadline; a handler takes the state
-- and returns it with the result. A time is a number of milliseconds, and the current time, random
-- identifiers and jitters are arguments. A nullable value is an Option, and a field of a patch that
-- may be undefined or null is an Option of an Option. What is not in the repository is a parameter:
-- SHA-256, atob, the signing by jose (with the choice of the key), and the rows of the database that
-- a handler only reads. What may throw there returns none. So are bcrypt, the HMAC and the
-- verification by jose, of which two theorems assume what JoseLaws says.
--
-- Fuel. The walk of validateNoCircularReference has two more than the number of departments, and is
-- proved never to run out of it. The loop over batches has one more than the number of items, and is
-- proved to run every item once.
--
-- Concurrency. Transactions and single statements are atomic steps. The theorems on one-time use and
-- on tokens that stay revoked quantify over all sequences of the steps of other requests: the writes
-- to the table of refresh tokens (`Writes` of Tokens.Rotation.Writes; the deletion of a client, which
-- deletes its rows with it, is not among them) and those to Redis (`JtiWrites` of Session.Jti.Later,
-- without one that blocks the jti in question until an earlier expiry). The operations of a batch
-- take effect in any order, one whole operation after another.
--
-- Not modelled: the pages and components, the routes that only read a request and call the above,
-- the reading of the audit log, the parsing of request bodies and headers, the
-- calls of the convergence by the writes (a write returns the users that it is called with), the
-- conversion of entities to rows (a renaming of fields), the zod schemas, and the
-- gateway, which is not TypeScript.
mod Base
pub mod Errors
pub mod Contracts
pub mod Session
pub mod Permissions
pub mod Tokens
pub mod Domain
pub mod Tests
pub mod Authz
pub mod BruteForce
pub mod Login
pub mod Crypto
pub mod Oauth
pub mod Batch
pub mod Effects
pub mod Logout
pub mod Account
pub mod Refresh
