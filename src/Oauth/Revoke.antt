-- ===== src/Oauth/Revoke.antt =====
-- oauth/token.go: the revocation endpoint, for a request whose form was read.
use go_idento.Prelude.{
  Bool, not, ◌&&◌, ◌||◌, none, some, [], ◌==◌, if◌then◌else◌, Text, text_eq, any, nat_beq, cut,
}
use go_idento.Identity.Errors as Errors
use go_idento.MemStore.State.{Store}
use go_idento.MemStore.Oauth as Methods
use go_idento.Oauth.Types.{Grant}
use go_idento.Oauth.Server.{Server, ResolvedClient}
use go_idento.Oauth.Clients.{Answer, answer, refuse, invalid_request}

-- The current or the previous secret of the grant.
abbrev pub holds : Server → Text → Grant → Bool
holds s secret g =
    (not (g.token_hash == []) && s.hash_secret secret == g.token_hash)
    || (not (g.prev_token_hash == []) && s.hash_secret secret == g.prev_token_hash)

abbrev pub has_dot : Text → Bool
has_dot t = any (λ c. nat_beq c b'.') t

unfoldable pub grant_of_refresh : Server → Store → Text → Text → Text
grant_of_refresh s db gid secret = elim (Methods.get_grant db gid) [
  | Errors.err e ↦ []
  | Errors.ok g ↦ if holds s secret g then gid else []
]

-- `access` is the claim of the grant in an access token that the JWT library accepts for the issuer,
-- empty without one.
unfoldable pub grant_id_of : Server → (Text → Text) → Store → Text → Text
grant_id_of s access db token = elim (cut b'.' token) [
  | none ↦ access token
  | some (gid, secret) ↦ if has_dot secret then access token else grant_of_refresh s db gid secret
]

-- Only a grant of the client goes.
unfoldable pub revoke_of : ResolvedClient → Store → Text → Store
revoke_of client db gid = elim (Methods.get_grant db gid) [
  | Errors.err e ↦ db
  | Errors.ok g ↦ if g.client_id == client.id then Methods.delete_grant db gid else db
]

-- The client was authenticated.
unfoldable pub revoke_token :
    Server → (Text → Text) → ResolvedClient → Text → Store → Answer (Unit {0}) × Store
revoke_token s access client token db =
    if token == []
    then (refuse invalid_request, db)
    else (let gid = grant_id_of s access db token in
        (answer tt, if gid == [] then db else revoke_of client db gid))
