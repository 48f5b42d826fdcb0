-- ===== src/Oauth/Limiter/Bound.antt =====
-- oauth/server.go: how many registrations the limiter lets through.
use go_idento.Prelude.{
  ℕ, suc, ◌+◌, ◌-◌, ◌*◌, ◌≤◌, ◌<◌, ◌≡◌, refl, ◌∙◌, inl, inr, Bool, ◌&&◌, Option, none, some, List,
  [], ◌∷◌, arith, ◌==◌, if◌then◌else◌, Text, text_eq, text_beq_iff, ltb, leb, In, Bool-cases,
  Option-cases,
}
use go_idento.Dict
use go_idento.Dict.{Dict, get-put, get-drop_where, unless}
use go_idento.Oauth.Limiter.{Window, IpLimiter, is_over, tidy, hit, allow}

-- How many calls of an address are allowed, in a sequence of calls at their times.
unfoldable pub passed : Text → IpLimiter → List (Text × ℕ) → ℕ
passed ip l [] = 0
passed ip l ((from, t) ∷ calls) =
    let (b, l') = allow l from t in (if b && from == ip then 1 else 0) + passed ip l' calls

-- What a window leaves from a time on: another window can follow one that began before.
abbrev left : ℕ → ℕ → Option Window → ℕ
left limit from none = limit
left limit from (some w) = if leb from w.start then limit - w.n else (limit - w.n) + limit

abbrev cost : Bool → ℕ
cost b = if b then 1 else 0

module _ (ip : Text) (from t : ℕ) where
  tidy-left :
      (l : IpLimiter)
      → t ≤ from + l.window
      → left l.limit from (Dict.get (tidy l t).hits ip) ≤ left l.limit from (Dict.get l.hits ip)
  unfolding tidy
  tidy-left l h = elim (Bool-cases (ltb 10000 (Dict.size l.hits))) [
    | inr e ↦ rw (e, tidy) (omega arith)
    | inl e ↦ elim (Option-cases (Dict.get l.hits ip)) [
      | inl n ↦ rw (e, tidy, get-drop_where l.hits (λ _ w. is_over l t w) ip, n) (omega arith)
      | inr (w, n) ↦ rw (e, tidy, get-drop_where l.hits (λ _ w. is_over l t w) ip, n) (ground arith)
    ]
  ]

  hit-left :
      (l : IpLimiter) (who : Text)
      → 0 < l.limit
      → t ≤ from + l.window
      → from ≤ t
      → left l.limit from (Dict.get (hit l who t (Dict.get l.hits who)).1.hits ip)
          + cost ((hit l who t (Dict.get l.hits who)).0 && who == ip)
        ≤ left l.limit from (Dict.get l.hits ip)
  hit-left l who limited h begun = elim (Option-cases (Dict.get l.hits who)) [
    | inl e ↦
        rw (e, hit, get-put l.hits who ip (record { start = t; n = 1 }))
          (ground (arith, e, text_beq_iff who ip))
    | inr (w, e) ↦ elim (Bool-cases (is_over l t w)) [
      | inl o ↦
          rw (e, hit, o, get-put l.hits who ip (record { start = t; n = 1 }))
            (ground (arith, e, o, text_beq_iff who ip))
      | inr o ↦ elim (Bool-cases (leb l.limit w.n)) [
        | inl full ↦ rw (e, hit, o, full) (omega arith)
        | inr room ↦
            rw (e, hit, o, room, get-put l.hits who ip (record w { n = suc w.n }))
              (ground (arith, e, o, room, text_beq_iff who ip))
      ]
    ]
  ]

-- The limit and the span of a limiter do not change.
abbrev Like : IpLimiter → IpLimiter → Type 0
Like l l' = (l'.limit ≡ l.limit) × (l'.window ≡ l.window)

tidy-Like : (l : IpLimiter) (t : ℕ) → Like l (tidy l t)
unfolding tidy
tidy-Like l t = elim (Bool-cases (ltb 10000 (Dict.size l.hits))) [
  | inl e ↦ rw (e, tidy) (refl, refl)
  | inr e ↦ rw (e, tidy) (refl, refl)
]

hit-Like : (l : IpLimiter) (who : Text) (t : ℕ) (o : Option Window) → Like l (hit l who t o).1
hit-Like l who t none = (refl, refl)
hit-Like l who t (some w) = elim (Bool-cases (is_over l t w)) [
  | inl o ↦ rw o (refl, refl)
  | inr o ↦ elim (Bool-cases (leb l.limit w.n)) [
    | inl full ↦ rw (o, full) (refl, refl)
    | inr room ↦ rw (o, room) (refl, refl)
  ]
]

allow-Like : (l : IpLimiter) (who : Text) (t : ℕ) → Like l (allow l who t).1
unfolding allow
allow-Like l who t =
    let (a, b) = tidy-Like l t in
    let (c, d) = hit-Like (tidy l t) who t (Dict.get (tidy l t).hits who) in (c ∙ a, d ∙ b)

allow-left :
    (ip : Text) (from t : ℕ) (l : IpLimiter) (who : Text)
    → 0 < l.limit
    → (from ≤ t) × (t ≤ from + l.window)
    → left l.limit from (Dict.get (allow l who t).1.hits ip) + cost ((allow l who t).0 && who == ip)
      ≤ left l.limit from (Dict.get l.hits ip)
unfolding allow
allow-left ip from t l who limited (begun, h) =
    let (same, span) = tidy-Like l t in
    let step = hit-left ip from t (tidy l t) who (rw same limited) (rw span h) begun in
    omega (arith, rw same at step, tidy-left ip from t l h)

-- The calls fall into the span that begins at a time.
abbrev pub Within : ℕ → ℕ → List (Text × ℕ) → Type 0
Within from span calls = (who : Text) (t : ℕ) → In (who, t) calls → (from ≤ t) × (t ≤ from + span)

passed-left :
    (ip : Text) (from : ℕ) (calls : List (Text × ℕ)) (l : IpLimiter)
    → 0 < l.limit
    → Within from l.window calls
    → passed ip l calls ≤ left l.limit from (Dict.get l.hits ip)
unfolding passed
passed-left ip from [] l limited h = omega arith
passed-left ip from ((who, t) ∷ calls) l limited h =
    let (same, span) = allow-Like l who t in
    let rest =
      passed-left ip from calls (allow l who t).1 (rw same limited)
        (λ a b i. rw span (h a b (inr i))) in
    omega (arith, rw same at rest, allow-left ip from t l who limited (h who t (inl refl)))

left_most : (limit from : ℕ) (o : Option Window) → left limit from o ≤ 2 * limit
left_most limit from none = omega arith
left_most limit from (some w) = ground arith

-- Of the calls in a span as long as the window, whatever other addresses do between them and whatever
-- the state of the limiter is, at most twice the limit are let through for an address.
pub passed_bounded :
    (ip : Text) (from : ℕ) (calls : List (Text × ℕ)) (l : IpLimiter)
    → 0 < l.limit
    → Within from l.window calls
    → passed ip l calls ≤ 2 * l.limit
passed_bounded ip from calls l limited h =
    omega
      (arith, passed-left ip from calls l limited h, left_most l.limit from (Dict.get l.hits ip))
