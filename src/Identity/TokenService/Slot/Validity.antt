-- ===== src/Identity/TokenService/Slot/Validity.antt =====
-- identity/token_service.go: which tokens the slot accepts.
use go_idento.Prelude.{
  ℕ, ◌+◌, ◌*◌, ◌/◌, ◌^◌, ◌<◌, ◌≡◌, refl, ◌≢◌, false, not, ◌||◌, some, [], ◌∷◌, ◌++◌, arith, ◌==◌,
  if◌then◌else◌, Text, text_eq, text_beq, cut, ltb, format_nat, parse_int-format_nat,
}
use go_idento.Identity.Errors.{ok, err, invalid_token}
use go_idento.Identity.Entities.{User}
use go_idento.Identity.World.{Env, World, now, fresh}
use go_idento.MemStore.Bindings.{get_token-set_token}
use go_idento.MemStore.Credentials.{get_token}
use go_idento.Identity.TokenService.{second, TokenOptions, refresh_ttl}
use go_idento.Identity.TokenService.Slot.{
  slot_provider, slot_name, slot_value, is_past, validate_slot, fill_slot,
}

-- No byte of the text is a colon.
abbrev pub HasNoColon : Text → Type 0
HasNoColon [] = Unit
HasNoColon (c ∷ s) = (c ≢ b':') × HasNoColon s

cut_at_colon : (a b : Text) → HasNoColon a → cut b':' (a ++ (b':' ∷ b)) ≡ some (a, b)
unfolding cut
cut_at_colon [] b h = ground arith
cut_at_colon (c ∷ a) b h = ground (arith, cut_at_colon a b h.1)

append_colon : (a b : Text) → (a ++ (b':' ∷ b) == []) ≡ false
unfolding text_beq
append_colon [] b = refl
append_colon (c ∷ a) b = refl

module _ (o : TokenOptions) (env : Env) (u : User) where
  read_slot :
      (hash presented : Text) (n : ℕ) (w : World)
      → get_token w.store u slot_provider slot_name ≡ hash ++ (b':' ∷ format_nat n)
      → HasNoColon hash
      → n < 2 ^ 63
      → (validate_slot o env u presented w).0 ≡ (
          if ltb (n * second) (env.clock w.reads) || not (hash == o.hash_refresh presented)
          then err invalid_token
          else ok tt)
  unfolding validate_slot is_past now
  read_slot hash presented n w e plain small =
      rw
        (
          e,
          append_colon hash (format_nat n),
          cut_at_colon hash (format_nat n) plain,
          parse_int-format_nat n small,
          validate_slot,
        )
        (ground arith)

  filled :
      (w w' : World) (issued : Text)
      → fill_slot o env u w ≡ (ok issued, w')
      → get_token w'.store u slot_provider slot_name
        ≡ slot_value o issued (env.clock w.reads + refresh_ttl o)
  unfolding fill_slot now fresh
  filled w w' issued h = ground (
    arith,
    get_token-set_token w.store u slot_provider slot_name
        (slot_value o (env.random w.draws) (env.clock w.reads + refresh_ttl o)),
  )

  -- After a refresh token was issued to the slot, the slot accepts a token exactly if its hash is that of
  -- the issued one and the second of the expiry has not passed, if hashes hold no colon and the expiry is a number of 63 bits.
  pub validate_slot-fill_slot :
      (w w' : World) (issued presented : Text)
      → HasNoColon (o.hash_refresh issued)
      → (env.clock w.reads + refresh_ttl o) / second < 2 ^ 63
      → fill_slot o env u w ≡ (ok issued, w')
      → (validate_slot o env u presented w').0 ≡ (
          if ltb ((env.clock w.reads + refresh_ttl o) / second * second) (env.clock w'.reads)
            || not (o.hash_refresh issued == o.hash_refresh presented)
          then err invalid_token
          else ok tt)
  unfolding slot_value
  validate_slot-fill_slot w w' issued presented plain small h =
      read_slot (o.hash_refresh issued) presented ((env.clock w.reads + refresh_ttl o) / second) w'
        (filled w w' issued h) plain small
