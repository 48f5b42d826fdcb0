-- ===== src/Oauth/Limiter.antt =====
-- oauth/server.go, oauth/register.go: the limit on registrations from one address, and the handler of
-- registrations behind it. The time of each call is given.
pub mod Bound
use go_idento.Prelude.{
  ℕ, suc, ◌+◌, Bool, true, false, not, Option, none, some, if◌then◌else◌, Text, text_eq, codes, ltb,
  leb,
}
use go_idento.Dict
use go_idento.Dict.{Dict}
use go_idento.Identity.World.{World, now}
use go_idento.Oauth.Server.{Server}
use go_idento.Oauth.Clients.{Answer, answer, refuse, Error, bad_request}
use go_idento.Oauth.Register.{ClientMetadata, ClientRegistration, invalid_metadata, register}

pub record Window : Type 0 where
  pub start : ℕ
  pub n : ℕ

pub record IpLimiter : Type 0 where
  pub limit : ℕ
  pub window : ℕ
  pub hits : Dict Text Window

-- now.Sub(w.start) > l.window
abbrev pub is_over : IpLimiter → ℕ → Window → Bool
is_over l t w = ltb (w.start + l.window) t

-- Windows that are over are dropped from a large table.
unfoldable pub tidy : IpLimiter → ℕ → IpLimiter
tidy l t =
    if ltb 10000 (Dict.size l.hits)
    then record l { hits = Dict.drop_where l.hits (λ _ w. is_over l t w) }
    else l

abbrev open_window : IpLimiter → Text → ℕ → Bool × IpLimiter
open_window l ip t = (true, record l { hits = Dict.put l.hits ip (record { start = t; n = 1 }) })

abbrev pub hit : IpLimiter → Text → ℕ → Option Window → Bool × IpLimiter
hit l ip t none = open_window l ip t
hit l ip t (some w) =
    if is_over l t w
    then open_window l ip t
    else if leb l.limit w.n
    then (false, l)
    else (true, record l { hits = Dict.put l.hits ip (record w { n = suc w.n }) })

unfoldable pub allow : IpLimiter → Text → ℕ → Bool × IpLimiter
unfolding tidy
allow l ip t = let l' = tidy l t in hit l' ip t (Dict.get l'.hits ip)

-- A request: `json` is whether the media type is that of JSON, `body` is what the body decodes to.
pub record Request : Type 0 where
  pub ip : Text
  pub post : Bool
  pub json : Bool
  pub body : Option ClientMetadata

-- There is no limiter if the limit is negative.
unfoldable pub admit : Server → Option IpLimiter → Text → World → Bool × Option IpLimiter × World
admit s none ip w = (true, none, w)
admit s (some l) ip w = let (t, w') = now s.env w in let (b, l') = allow l ip t in (b, some l', w')

abbrev decode_body : Server → Request → World → Answer ClientRegistration × World
decode_body s r w =
    if not r.json
    then (refuse invalid_metadata, w)
    else (elim r.body [ none ↦ (refuse invalid_metadata, w) | some m ↦ register s m w ])

unfoldable pub serve_registration :
    Server
    → Option IpLimiter
    → Request
    → World
    → Answer ClientRegistration × Option IpLimiter × World
serve_registration s l r w =
    if not r.post
    then (refuse (record { status = 405; code = codes "invalid_request" }), l, w)
    else (let (admitted, l', w1) = admit s l r.ip w in
        let (a, w2) =
          if admitted
          then decode_body s r w1
          else (refuse (record { status = 429; code = codes "invalid_request" }), w1) in
        (a, l', w2))
