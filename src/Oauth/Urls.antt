-- ===== src/Oauth/Urls.antt =====
-- oauth/util.go: URLs. What net/url, net and the tables of package strings give is a parameter.
use go_idento.Prelude.{
  Bool, true, false, not, ◌&&◌, ◌||◌, Option, none, some, List, [], ◌∷◌, ◌==◌, if◌then◌else◌, Text,
  text_eq, codes, any, nat_beq,
}
use go_idento.Dict.{Dict}

-- url.Values
abbrev pub Values : Type 0
Values = Dict Text (List Text)

-- url.URL
pub record Url : Type 0 where
  pub scheme : Text
  pub host : Text
  pub path : Text
  pub raw_path : Text
  pub raw_query : Text
  pub fragment : Text
  -- Whether User is set.
  pub user : Bool

pub record Web : Type 0 where
  -- url.Parse, and the methods String, Hostname and EscapedPath of its result.
  pub parse : Text → Option Url
  pub string : Url → Text
  pub hostname : Url → Text
  pub escaped_path : Url → Text
  -- The query of a URL, and Values.Encode.
  pub query : Url → Values
  pub encode : Values → Text
  -- net.ParseIP finds an address, and it is IsLoopback.
  pub is_loopback_ip : Text → Bool
  pub trim_space : Text → Text
  pub to_lower : Text → Text
  pub equal_fold : Text → Text → Bool

-- strings.Contains(s, "#")
abbrev pub has_hash : Text → Bool
has_hash s = any (λ c. nat_beq c b'#') s

module _ (web : Web) where
  -- The scheme and the host in lower case, and no slash for the root.
  abbrev normal : Url → Url
  normal u = record u {
    scheme = web.to_lower u.scheme;
    host = web.to_lower u.host;
    path = if u.path == codes "/" then [] else u.path;
  }

  unfoldable pub canonical_resource : Text → Option Text
  canonical_resource s = elim (web.parse (web.trim_space s)) [
    | none ↦ none
    | some u ↦
        if u.scheme == [] || (u.host == [] || (not (u.fragment == []) || u.user))
        then none
        else some (web.string (normal u))
  ]

  unfoldable pub is_loopback_host : Text → Bool
  is_loopback_host host =
      if web.equal_fold host (codes "localhost") then true else web.is_loopback_ip host

  -- No error.
  unfoldable pub validate_redirect_uri : Text → Bool
  validate_redirect_uri s = elim (web.parse s) [
    | none ↦ false
    | some u ↦
        if u.scheme == [] || u.host == []
        then false
        else if not (u.fragment == []) || has_hash s
        then false
        else if u.user
        then false
        else if web.to_lower u.scheme == codes "https"
        then true
        else if web.to_lower u.scheme == codes "http"
        then is_loopback_host (web.hostname u)
        else false
  ]

  -- An http URL of a loopback host.
  abbrev pub is_native : Url → Bool
  is_native u = web.equal_fold u.scheme (codes "http") && is_loopback_host (web.hostname u)

  -- The registered URL is the requested one but for the port.
  unfoldable pub same_but_port : Url → Text → Bool
  same_but_port ru reg = elim (web.parse reg) [
    | none ↦ false
    | some gu ↦
        is_native gu
        && (web.equal_fold (web.hostname gu) (web.hostname ru)
            && (web.escaped_path gu == web.escaped_path ru && gu.raw_query == ru.raw_query))
  ]

  unfoldable pub match_redirect_uri : List Text → Text → Bool
  match_redirect_uri registered requested =
      if requested == []
      then false
      else if any (λ reg. reg == requested) registered
      then true
      else (elim (web.parse requested) [
        | none ↦ false
        | some ru ↦
            if not (is_native ru) || not (ru.fragment == [])
            then false
            else any (same_but_port ru) registered
      ])

  abbrev loops : Text → Bool
  loops s = elim (web.parse s) [ none ↦ false | some u ↦ is_loopback_host (web.hostname u) ]

  unfoldable pub all_loopback : List Text → Bool
  all_loopback [] = false
  all_loopback (s ∷ []) = loops s
  all_loopback (s ∷ t ∷ uris) = loops s && all_loopback (t ∷ uris)

  unfoldable pub host_of : Text → Text
  host_of s = elim (web.parse s) [ none ↦ [] | some u ↦ u.host ]
