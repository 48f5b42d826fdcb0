-- ===== src/Identity/TokenService/Sessions/Limit.antt =====
-- identity/token_service.go: the limit on the sessions of a user.
use go_idento.Prelude.{
  ℕ, zero, suc, ◌+◌, ◌-◌, ◌≤◌, ◌<◌, ◌≡◌, refl, ◌∙◌, sym, ◌≢◌, inl, inr, Bool, some, List, [], ◌∷◌,
  map, arith, ◌==◌, if◌then◌else◌, Text, text_eq, text_beq_iff, ltb, length, In, Pairwise,
  sort_by-Pairwise, In-sort_by, length-sort_by, Bool-cases, ap,
}
use go_idento.Dict
use go_idento.Dict.{get-remove, select-In, select-Pairwise, length-select-remove}
use go_idento.Identity.Entities.{RefreshToken}
use go_idento.MemStore.State.{Store}
use go_idento.MemStore.RefreshTokens.{delete_refresh_token, list_user_refresh_tokens}
use go_idento.Identity.TokenService.{TokenOptions}
use go_idento.Identity.TokenService.Sessions.{evict, by_expiry, enforce_max_sessions}

-- Each session stands at its own id.
abbrev pub IsKeyed : Store → Type 0
IsKeyed s =
    (k : Text) (rt : RefreshToken) → Dict.get s.refresh_tokens k ≡ some rt → rt.session_id ≡ k

-- How many sessions the user has.
abbrev pub count : Store → Text → ℕ
count s user_id = length (Dict.select s.refresh_tokens (λ _ rt. rt.user_id == user_id))

-- Two sessions with two ids.
abbrev Apart : RefreshToken → RefreshToken → Type 0
Apart a b = a.session_id ≢ b.session_id

-- The listed sessions are stored.
abbrev Stored : Store → Text → List RefreshToken → Type 0
Stored s user_id xs =
    (rt : RefreshToken)
    → In rt xs
    → (Dict.get s.refresh_tokens rt.session_id ≡ some rt) × (rt.user_id ≡ user_id)

-- How many of them are not the one that is kept.
abbrev others : Text → List RefreshToken → ℕ
others keep [] = 0
others keep (x ∷ xs) = (if x.session_id == keep then 0 else 1) + others keep xs

all_others :
    (keep : Text) (xs : List RefreshToken)
    → ((y : RefreshToken) → In y xs → keep ≢ y.session_id)
    → others keep xs ≡ length xs
all_others keep [] h = refl
all_others keep (x ∷ xs) h =
    ground (
      arith,
      h x (inl refl),
      text_beq_iff x.session_id keep,
      all_others keep xs (λ y i. h y (inr i)),
    )

-- At most one is kept.
length-others :
    (keep : Text) (xs : List RefreshToken) → Pairwise Apart xs → length xs ≤ suc (others keep xs)
length-others keep [] p = omega arith
length-others keep (x ∷ xs) p = elim (Bool-cases (x.session_id == keep)) [
  | inl e ↦
      let same : x.session_id ≡ keep = (text_beq_iff x.session_id keep).0 e in
      rw e (omega (arith, all_others keep xs (λ y i. rw (← same) (p.0 y i))))
  | inr e ↦ rw e (omega (arith, length-others keep xs p.1))
]

count-delete :
    (s : Store) (user_id : Text) (rt : RefreshToken)
    → Dict.get s.refresh_tokens rt.session_id ≡ some rt
    → rt.user_id ≡ user_id
    → suc (count (delete_refresh_token s rt.session_id) user_id) ≡ count s user_id
unfolding delete_refresh_token
count-delete s user_id rt at own =
    length-select-remove s.refresh_tokens (λ _ x. x.user_id == user_id) rt.session_id rt at
      ((text_beq_iff rt.user_id user_id).1 own)

-- Deleting one of them leaves the later ones stored.
Stored-delete :
    (s : Store) (user_id : Text) (x : RefreshToken) (xs : List RefreshToken)
    → Stored s user_id (x ∷ xs)
    → ((y : RefreshToken) → In y xs → Apart x y)
    → Stored (delete_refresh_token s x.session_id) user_id xs
unfolding delete_refresh_token
Stored-delete s user_id x xs h apart rt i =
    let (at, own) = h rt (inr i) in
    (
      ground (
        arith,
        get-remove s.refresh_tokens x.session_id rt.session_id,
        text_beq_iff x.session_id rt.session_id,
        apart rt i,
      ),
      own,
    )

-- The loop deletes as many sessions as it is asked to.
count-evict :
    (excess : ℕ) (keep user_id : Text) (xs : List RefreshToken) (s : Store)
    → Stored s user_id xs
    → Pairwise Apart xs
    → excess ≤ others keep xs
    → count (evict excess keep xs s) user_id + excess ≡ count s user_id
unfolding evict
count-evict zero keep user_id xs s h p e = omega arith
count-evict (suc n) keep user_id [] s h p e = absurd (omega arith)
count-evict (suc n) keep user_id (x ∷ xs) s h p e = elim (Bool-cases (x.session_id == keep)) [
  | inl kept ↦
      rw kept (count-evict (suc n) keep user_id xs s (λ rt i. h rt (inr i)) p.1 (ground arith))
  | inr out ↦
      let (at, own) = h x (inl refl) in
      rw out (
        omega (
          arith,
          count-delete s user_id x at own,
          count-evict n keep user_id xs (delete_refresh_token s x.session_id)
              (Stored-delete s user_id x xs h p.0) p.1 (ground arith),
        ))
]

-- The sessions of a list of entries.
abbrev rows : List (Text × RefreshToken) → List RefreshToken
rows m = map (λ e. e.1) m

length-rows : (m : List (Text × RefreshToken)) → length (rows m) ≡ length m
length-rows [] = refl
length-rows (e ∷ m) = ap suc (length-rows m)

In-rows :
    (rt : RefreshToken) (m : List (Text × RefreshToken))
    → In rt (rows m)
    → (k : Text) × In (k, rt) m
In-rows rt [] i = absurd i
In-rows rt ((k, x) ∷ m) (inl e) = (k, inl (ap (λ r. (k, r)) e))
In-rows rt ((k, x) ∷ m) (inr i) = let (k', j) = In-rows rt m i in (k', inr j)

rows-Apart :
    (m : List (Text × RefreshToken))
    → ((k : Text) (rt : RefreshToken) → In (k, rt) m → rt.session_id ≡ k)
    → Pairwise (λ a b. a.0 ≢ b.0) m
    → Pairwise Apart (rows m)
rows-Apart [] h p = tt
rows-Apart ((k, x) ∷ m) h p = (
  λ y i e.
      let (k', j) = In-rows y m i in p.0 (k', y) j (sym (h k x (inl refl)) ∙ (e ∙ h k' y (inr j))),
  rows-Apart m (λ k' rt i. h k' rt (inr i)) p.1,
)

module _ (s : Store) (user_id : Text) (keyed : IsKeyed s) where
  own : Text → RefreshToken → Bool
  own k rt = rt.user_id == user_id

  entry-Stored :
      (k : Text) (rt : RefreshToken)
      → In (k, rt) (Dict.select s.refresh_tokens own)
      → (rt.session_id ≡ k)
        × (Dict.get s.refresh_tokens rt.session_id ≡ some rt)
        × (rt.user_id ≡ user_id)
  unfolding own
  entry-Stored k rt i =
      let (at, mine) = select-In s.refresh_tokens own k rt i in
      (
        keyed k rt at,
        ap (Dict.get s.refresh_tokens) (keyed k rt at) ∙ at,
        (text_beq_iff rt.user_id user_id).0 mine,
      )

  listed-Stored : Stored s user_id (by_expiry (list_user_refresh_tokens s user_id))
  unfolding list_user_refresh_tokens own
  listed-Stored rt i =
      let (k, j) =
        In-rows rt (Dict.select s.refresh_tokens own) (In-sort_by _ rt _ (In-sort_by _ rt _ i)) in
      let (same, at, mine) = entry-Stored k rt j in (at, mine)

  listed-Apart : Pairwise Apart (by_expiry (list_user_refresh_tokens s user_id))
  unfolding list_user_refresh_tokens own
  listed-Apart =
      sort_by-Pairwise _ Apart (λ a b h e. h (sym e)) _
        (sort_by-Pairwise _ Apart (λ a b h e. h (sym e)) _
          (rows-Apart (Dict.select s.refresh_tokens own) (λ k rt i. (entry-Stored k rt i).0)
            (select-Pairwise s.refresh_tokens own)))

  length-listed : length (list_user_refresh_tokens s user_id) ≡ count s user_id
  unfolding list_user_refresh_tokens
  length-listed =
      length-sort_by _ (rows (Dict.select s.refresh_tokens (λ _ rt. rt.user_id == user_id)))
      ∙ length-rows _

-- The limit holds once it was enforced: a user has at most as many sessions as are allowed, whichever
-- session is kept.
pub enforce_max_sessions_limits :
    (o : TokenOptions) (s : Store) (user_id keep : Text)
    → IsKeyed s
    → 0 < o.max_sessions
    → count (enforce_max_sessions o user_id keep s) user_id ≤ o.max_sessions
unfolding enforce_max_sessions
enforce_max_sessions_limits o s user_id keep keyed limited =
    let sessions : List RefreshToken = list_user_refresh_tokens s user_id in
    ground (
      arith,
      length-listed s user_id keyed,
      length-sort_by (λ a b. ltb a.expires_at b.expires_at) sessions,
      length-others keep (by_expiry sessions) (listed-Apart s user_id keyed),
      count-evict (length sessions - o.max_sessions) keep user_id (by_expiry sessions) s
          (listed-Stored s user_id keyed) (listed-Apart s user_id keyed),
    )
