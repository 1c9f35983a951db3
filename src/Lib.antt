-- ===== src/Lib.antt =====
-- semantius-idp: an OpenID Connect identity provider on Better Auth. This library models the
-- decisions that the server in apps/web/src makes itself: who may sign in, what an
-- administrator may do, which address a request came from, which issuer answers it, what a
-- token says of a user, what a gateway sends on, and which tokens, keys and trusted browsers live.
--
-- The parts and where they are; paths are below apps/web/src/server unless they say lib.
-- A request passes `auth/options/session-standing.ts` and, on an admin path, the before hook of
-- `admin/guard.ts`, which asks `admin/invariants.ts`; the write is Better Auth's; the after hook
-- then records and revokes through `oidc/revoke-user-tokens.ts`. Sign-in and the pages of
-- `oidc/gate-chain.ts` read the same standing of the account. A request to a gateway goes through
-- `gateways/proxy.ts`, which finds its row in `gateways/registry.ts`; `gateways/reconcile.ts`
-- writes the rows that the registry loads.
--
-- - Prelude: texts as lists of UTF-16 code units with the string methods in use (Prelude.Texts),
--   lists and Boolean tests, a Map as a dictionary in insertion order (Prelude.Dicts). Js: an
--   untyped value of a request body.
-- - Roles: `splitRoles`, `joinRoles`, `effectiveRoles`, `isAdmin` of role-utils.ts.
-- - Standing: `nextGate`, `gateRoute`, `gateResumes`, `banHasExpired` of oidc/gate-chain.ts, and
--   `assertUserMaySignIn` of auth/options/database-hooks.ts. A thrown error is a value.
--   Standing.Hooks: the other hooks of that file, with `isEmailDomainAllowed` of options/social.ts.
-- - Admin: `assertAdminInvariants` and its helpers of admin/invariants.ts, `loadAdmins` of
--   admin/admins.ts. Admin.Table is the user table and the writes, Admin.LastAdmin the steps of a
--   deployment and what is reachable by them. Admin.Action is `actionForPath` and the checks of
--   a request's body, Admin.Guard the before hook and Admin.After the after hook of admin/guard.ts;
--   the hooks give the refusal, the audit rows, the cache reset and the revoked users as values.
-- - FirstUser: `isSetupPending`, `markSetupComplete` and `createFirstUser` of admin/first-user.ts
--   under `withAdvisoryLock` of db/advisory-lock.ts, with `displayName` of display-name.ts. What
--   runs between two awaits is one step.
-- - Net.Address: `toBytes`, `v4Bytes`, `v6Bytes` of http/client-ip.ts. Net.ClientIp:
--   `clientIpFrom`, `inCidr`, `normalizeIp`, `rateLimitKeyAddress` of the same file, Net.ClientIp.Edge:
--   `resolveClientAddress`.
-- - SessionStanding: `assertSessionStanding`, `assertRefreshOwnerMaySignIn` and
--   `assertDeviceOwnerMaySignIn` of auth/options/session-standing.ts.
-- - Claims: `buildUserClaims` of claims/build-claims.ts, an object being its entries in order.
-- - Issuer: `resolveRequestIssuer` and `hostAllowed` of oidc/request-issuer.ts, `normalizeHost` of
--   http/request-origin.ts. Issuer.Origin: `requestOrigins` and `assertSameOrigin` of the latter.
-- - RateLimit: `consume`, `peek` and `reset` of http/rate-limit.ts over a table of buckets.
-- - Placeholders: `substituteString`, `resolvePlaceholder`, `resolveEnv` and `resolveFile` of
--   config/placeholders.ts; Placeholders.Scan is the loop over the text, Placeholders.Walk the walk
--   over a value, with paths in place of pointers.
-- - Gateway: `isValidGatewayName`, `checkGatewayUrl`, `checkGatewayAudience` and
--   `validateGatewayForm` of lib/gateway-rules.ts; Gateway.Address: `isLinkLocalAddress` with
--   `parseIpv4` and `parseIpv6` of the same file.
-- - Gateway.Proxy: `proxyGatewayRequest`, `resolveTarget`, `upstreamAddressProblem`,
--   `translateAuth` and `sessionCredential` of gateways/proxy.ts; Gateway.Headers: which headers
--   cross, `applyForwardedHeaders` and `buildResponse`; Gateway.Tokens: `exchange`,
--   `hashCredential`, `allowMintAttempt` and `storeToken` over the three module-level maps.
-- - Gateway.Registry: `gatewayRegistry`, `load`, `readAll` and `resetGatewayRegistry` of
--   gateways/registry.ts, whose table others may write too. Gateway.Reconcile: `applyReconciliation`
--   and `differs` of gateways/reconcile.ts.
-- - Keys: `performRotation` of oidc/rotate-keys.ts. Refresh: `revokeExpiredRefreshFamilies` of
--   oidc/refresh-lifetime.ts.
-- - Devices: the hooks on the rows of trusted browsers, their clearing and their list, of
--   auth/trusted-devices.ts.
-- - Oauth: the token, consent and session tables; Oauth.Revoke: the revocations of
--   oidc/revoke-user-tokens.ts; Oauth.Grants: `activeGrantsFor` and
--   `liveTokenClientsBySession` of oidc/grants.ts.
-- - Clients: `toClientRow` and `resourceLinksFor` of oidc/client-mapping.ts; Clients.Rows: the
--   tables and the columns of a row; Clients.Reconcile: `applyReconciliation`, `differs`,
--   `syncResourceLinks` and `revokeTokensFor` of oidc/reconcile.ts.
-- - Cors: `clientOrigins`, `browserOriginsOf`, `corsFor`, `withCors` and `preflightResponse` of
--   http/cors.ts, the refresh of oidc/client-origins.ts, `expandHostTemplate` of
--   lib/client-rules.ts.
-- - Tests: runs of the definitions, and the theorems at concrete inputs.
--
-- What is a parameter: the date parser, `toLowerCase` and `toUpperCase`, the URL parser, `Number`
-- on a prefix length, the hash of a stored token or a credential, the session store, the rows that
-- the database answers with, the resolver of host names, the answer of the token endpoint and of
-- the upstream, the name of a joined client, `JSON.stringify` and what a jsonb column gives back,
-- environment variables and files, the database's LIKE operator, how the provider compares the
-- algorithm of a signing key with the configured one, and the writes of Better Auth's admin
-- endpoints (Admin.Table.AdminStore states what is relied on). The clock is an argument.
--
-- Bounds: numbers are natural numbers, and times are milliseconds since the epoch; a byte, a hextet
-- and the masks of `inCidr` keep their arithmetic written out. The loop over a text with
-- placeholders runs on fuel, the length of the text, which is enough; each other loop of the source
-- is structural recursion over the list or text that it walks. A step of Admin.LastAdmin checks and
-- writes at once, so two requests that interleave between check and write are outside it; a step of
-- FirstUser, Gateway.Registry and Gateway.Tokens is what runs between two awaits.
--
-- Not modelled: the cap on a streamed body, time-outs, error messages, logging, the configuration
-- loader and its schemas, the protocol routes that only pass on to Better Auth, the sending of
-- e-mail, the database client and the user interface; a query that fails is a value only where a
-- module says so.
pub mod Prelude
pub mod Roles
pub mod Standing
pub mod Admin
pub mod Js
pub mod Net
pub mod SessionStanding
pub mod Claims
pub mod Oauth
pub mod FirstUser
pub mod Clients
pub mod Cors
pub mod Devices
pub mod Issuer
pub mod Keys
pub mod Gateway
pub mod RateLimit
pub mod Refresh
pub mod Placeholders
mod Tests
