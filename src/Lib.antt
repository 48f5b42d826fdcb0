-- ===== src/Lib.antt =====
-- go-idento: identity, an OAuth 2.1 authorization server, and the in-memory store behind both.
--
-- The program has a framework (identity: users, passwords, lockout, sign-in, sessions, API keys), an
-- authorization server (oauth: clients, codes, grants, access tokens) and interchangeable stores
-- (stores/memstore, stores/gormstore, stores/pgxstore, stores/pgxsqlc). The managers hold no state of
-- their own: they read rows from a store, change the copies and write them back. The server takes its
-- users from the user manager and keeps its own rows in the same store.
--
--   Prelude     Boolean tests, lists, comparable keys, Go strings as bytes, sorting.
--   Dict        Go maps. Their representation is private; clients have laws on reads after writes.
--   MemStore    stores/memstore: State is the struct with its maps, Users, Listing, Memberships,
--               Credentials and Roles are memstore.go, ApiKeys is apikey.go, RefreshTokens is
--               refreshtoken.go and Oauth is oauth.go. Every method but FindByLogin holds the lock
--               for its whole body, so it is one function on the state, and an interleaving of
--               requests is a sequence of calls (Races, KeyLife). FindByLogin releases it before
--               its second read, and is one function here as well.
--   Identity    identity: Errors, Entities and Options are errors.go, entities.go, options.go; Policy
--               and Lockout are the password and name rules, IsLockedOut, AccessFailed,
--               ResetAccessFailedCount and CheckPassword of user_manager.go, and Accounts is its creation
--               of users and the changes of names, emails and passwords; SignIn is
--               signin_manager.go without the second factor, and ExternalLoginSignIn. World is what a
--               manager acts on: the store, and how far the clock and the random source were read.
--               TokenService is token_service.go: Claims are the access tokens and ValidateAccessToken,
--               Sessions the refresh sessions (refreshSession, enforceMaxSessions), Slot the slot of
--               one token for a user (validateLegacySlot), Service the methods that choose between
--               them. Its steps are of the type Action.Action. ApiKeys is apikey.go,
--               RoleManager is role_manager.go, TwoFactor is twofactor.go without TOTP, Guests is
--               guest.go.
--   Oauth       oauth: Types is types.go, Scopes is the scopes and PKCE of util.go, Server is the
--               server's settings and errors, Token is the code grant of token.go and Refresh its
--               refresh grant and ValidateResourceToken; Manage is revocation and the purges of
--               server.go, Revoke is RevokeHandler with grantIDOf of token.go. An error of Token and
--               Refresh is a value of Server.OauthError, one for each message, and error_code gives
--               the code of the reply; elsewhere an error is its status and code, Clients.Error.
--               Urls is the URLs of util.go; Clients is resolveClient, resolveResource and
--               resolveScopes of server.go and authenticateClient of token.go;
--               Authorize is authorize.go, in Parse parseAuthz, in Csrf the tokens of the consent form,
--               in Handler the rest; Register is register.go, and Limiter ipLimiter of server.go with
--               RegisterHandler; Cimd is cimd.go, in Documents its rules and in Cached Resolve;
--               Assertion is authenticateAssertion of client_assertion.go.
--
-- Numbers are natural; a time is its number of nanoseconds, a text its bytes. The clock, the random
-- source, the normalizer, the password hasher, the classes of package unicode, the hashes, the token
-- signer and verifier, net/url, encoding/json and the network are parameters: they are interfaces or
-- come from other packages. Nothing is assumed of them, except where a theorem names it. The handler
-- of Authorize takes what a client's metadata document resolves to as a function of the id; the
-- cache behind it is Cimd.Cached. Assertion takes the keys that CIMDFetcher.jwks finds at a URI as a
-- function. A clock is a function from the number of the reading, so it may stand still or go back.
-- Every loop runs over a list or a number of rounds; the digits of a number are taken in one round
-- more than the number itself, so none is left out. Map iteration is the order of the entries of the
-- map; a statement holds for every map, so for every order.
--
-- Not modelled: the SQL stores, HTTP (headers, middleware, cookies, JWKS, the pages), NewServer, the
-- address checks of the fetcher, the decoding of keys and the cache of key sets, TOTP and the codes
-- by phone and email, data tokens, migrations and the demos. The text of an error is not modelled
-- either, so no redirect has an error_description.
mod Prelude
pub mod Dict
pub mod Identity
pub mod Oauth
pub mod MemStore
