-- ===== src/Identity/TwoFactor/Redemption.antt =====
-- identity/twofactor.go: recovery codes are used up.
use go_idento.Prelude.{
  text_beq, ℕ, ◌+◌, ◌≡◌, ◌≢◌, refl, ◌∙◌, sym, ap, subst, inl, inr, Bool, true, false, ◌&&◌, List,
  [], ◌∷◌, arith, ◌==◌, if◌then◌else◌, Text, text_eq, text_beq_iff, split, join, EachLacks,
  split-EachLacks, split-join, Bool-cases,
}
use go_idento.Identity.Entities.{User}
use go_idento.Identity.World.{Env, World}
use go_idento.MemStore.Credentials.{get_token}
use go_idento.MemStore.Bindings.{get_token-set_token}
use go_idento.Identity.TwoFactor.{
  internal_provider, recovery_codes_name, consume, settle, redeem_recovery_code,
}

-- How often a hash is listed.
abbrev pub occurs : Text → List Text → ℕ
occurs h [] = 0
occurs h (p ∷ parts) = (if p == h then 1 else 0) + occurs h parts

-- How often a hash is stored for the user.
abbrev pub listed : Text → Text → ℕ
listed h stored = if stored == [] then 0 else occurs h (split b';' stored)

abbrev one_if : Bool → ℕ
one_if b = if b then 1 else 0

consume-Found : (target : Text) (parts : List Text) → (consume target parts true).0 ≡ true
unfolding consume
consume-Found target [] = refl
consume-Found target (p ∷ parts) = consume-Found target parts

occurs-rest :
    (h target : Text) (parts : List Text)
    → h ≢ []
    → occurs h (consume target parts true).1 ≡ occurs h parts
unfolding consume
occurs-rest h target [] filled = refl
occurs-rest h target (p ∷ parts) filled =
    ground (arith, occurs-rest h target parts filled, text_beq_iff p [], text_beq_iff p h, filled)

-- One occurrence of the target goes, exactly if there is one.
occurs-consume :
    (h target : Text) (parts : List Text)
    → h ≢ []
    → occurs h (consume target parts false).1
        + one_if ((consume target parts false).0 && target == h)
      ≡ occurs h parts
unfolding consume
occurs-consume h target [] filled = omega arith
occurs-consume h target (p ∷ parts) filled = ground (
  arith,
  occurs-consume h target parts filled,
  occurs-rest h target parts filled,
  consume-Found target parts,
  text_beq_iff p [],
  text_beq_iff p h,
  text_beq_iff p target,
  text_beq_iff target h,
  filled,
)

consume-none :
    (target : Text) (parts : List Text)
    → (consume target parts false).0 ≡ false
    → occurs target parts ≡ 0
unfolding consume
consume-none target [] h = refl
consume-none target (p ∷ parts) h =
    ground (arith, consume-none target parts, consume-Found target parts, text_beq_iff p target)

consume-EachLacks :
    (c : ℕ) (target : Text) (parts : List Text) (found : Bool)
    → EachLacks c parts
    → EachLacks c (consume target parts found).1
unfolding consume
consume-EachLacks c target [] found h = tt
consume-EachLacks c target (p ∷ parts) found (a, b) =
    ground
      (arith, a, consume-EachLacks c target parts true b, consume-EachLacks c target parts found b)

listed-empty : (h : Text) → listed h [] ≡ 0
unfolding text_beq
listed-empty h = refl

occurs-blank : (h : Text) → h ≢ [] → occurs h (split b';' []) ≡ 0
unfolding split
occurs-blank h filled = ground (arith, filled, text_beq_iff [] h)

listed-some : (h stored : Text) → h ≢ [] → listed h stored ≡ occurs h (split b';' stored)
listed-some h [] filled = listed-empty h ∙ sym (occurs-blank h filled)
listed-some h (c ∷ stored) filled = ground (arith, text_beq_iff (c ∷ stored) [])

listed-join :
    (h : Text) (parts : List Text)
    → h ≢ []
    → EachLacks b';' parts
    → listed h (join b';' parts) ≡ occurs h parts
unfolding join
listed-join h [] filled lacks = listed-empty h
listed-join h (p ∷ parts) filled lacks =
    listed-some h (join b';' (p ∷ parts)) filled ∙ ap (occurs h) (split-join b';' p parts lacks)

module _ (hash : Text → Text) (env : Env) (u : User) (h : Text) (filled : h ≢ []) where
  abbrev stored_in : World → Text
  stored_in w = get_token w.store u internal_provider recovery_codes_name

  settle-Counts :
      (target : Text) (w : World) (o : Bool × List Text)
      → occurs h o.1 + one_if (o.0 && target == h) ≡ listed h (stored_in w)
      → EachLacks b';' o.1
      → listed h (stored_in (settle hash env u w o).1)
          + one_if ((settle hash env u w o).0 && target == h)
        ≡ listed h (stored_in w)
  settle-Counts target w (false, remaining) e lacks = omega arith
  settle-Counts target w (true, remaining) e lacks =
      rw
        (
          get_token-set_token w.store u internal_provider recovery_codes_name (join b';' remaining),
          listed-join h remaining filled lacks,
        )
        e

  settle-fst : (w : World) (o : Bool × List Text) → (settle hash env u w o).0 ≡ o.0
  settle-fst w (false, remaining) = refl
  settle-fst w (true, remaining) = refl

  -- What an attempt with a hash leaves of the list, at a state.
  abbrev pub Counts : Text → World → Bool × World → Type 0
  Counts target w o =
      (listed h (stored_in o.1) + one_if (o.0 && target == h) ≡ listed h (stored_in w))
      × (o.0 ≡ false → h ≡ target → listed h (stored_in w) ≡ 0)

  refused-Counts :
      (target : Text) (w : World) → (stored_in w == []) ≡ true → Counts target w (false, w)
  refused-Counts target w e = (omega arith, λ _ _. rw e refl)

  consumed-Counts :
      (target : Text) (w : World)
      → (stored_in w == []) ≡ false
      → Counts target w (settle hash env u w (consume target (split b';' (stored_in w)) false))
  consumed-Counts target w e =
      let parts : List Text = split b';' (stored_in w) in
      let o : Bool × List Text = consume target parts false in
      (
        settle-Counts target w o
            (occurs-consume h target parts filled ∙ sym (listed-some h (stored_in w) filled))
            (consume-EachLacks b';' target parts false (split-EachLacks b';' (stored_in w))),
        λ refused same.
            listed-some h (stored_in w) filled
            ∙ rw same (consume-none target parts (sym (settle-fst w o) ∙ refused)),
      )

  unlisted :
      (code : Text) (w : World)
      → (stored_in w == []) ≡ true
      → redeem_recovery_code hash env u code w ≡ (false, w)
  unfolding redeem_recovery_code
  unlisted code w e = rw e refl

  searched :
      (code : Text) (w : World)
      → (stored_in w == []) ≡ false
      → redeem_recovery_code hash env u code w
        ≡ settle hash env u w
            (consume (hash (env.trim_space code)) (split b';' (stored_in w)) false)
  unfolding redeem_recovery_code
  searched code w e = rw e refl

  -- One redemption, with no other call between its read of the list of recovery codes and its write, for
  -- each hash that is not empty: if the code is accepted, one occurrence of its hash goes and every
  -- other hash is listed as often as it was; if it is refused, every hash is listed as often as it was,
  -- and that of the code not at all.
  pub redeem_recovery_code-Counts :
      (code : Text) (w : World)
      → Counts (hash (env.trim_space code)) w (redeem_recovery_code hash env u code w)
  redeem_recovery_code-Counts code w =
      let target : Text = hash (env.trim_space code) in
      elim (Bool-cases (stored_in w == [])) [
        | inl e ↦ subst (Counts target w) (sym (unlisted code w e)) (refused-Counts target w e)
        | inr e ↦ subst (Counts target w) (sym (searched code w e)) (consumed-Counts target w e)
      ]
