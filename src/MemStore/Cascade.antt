-- ===== src/MemStore/Cascade.antt =====
-- stores/memstore/memstore.go: what `cascadeDeleteLocked` removes and what it leaves.
use go_idento.Prelude.{
  ◌≡◌, refl, ◌≢◌, true, false, none, some, arith, ◌==◌, Text, text_eq, text_beq_iff, has_prefix,
  Option-cases, Bool-cases, inl, inr, sym, ◌∙◌,
}
use go_idento.Dict
use go_idento.Dict.{Dict, get-remove, get-drop_where, unless}
use go_idento.Identity.Entities.{ApiKey, RefreshToken}
use go_idento.Oauth.Types.{Code, Consent, Grant}
use go_idento.MemStore.State.{Store, token_prefix, token_key}
use go_idento.MemStore.Keys.{IsPlain, owner_of_token_key}
use go_idento.MemStore.Users.{cascade_delete}

-- No row of the store `s` belongs to the user, and none of the logins that were the user's in `s0` is
-- left.
pub record IsGone (s0 s : Store) (id : Text) : Type 0 where
  pub no_user : Dict.get s.users id ≡ none
  pub no_roles : Dict.get s.user_roles id ≡ none
  pub no_claims : Dict.get s.user_claims id ≡ none
  pub no_tokens : (k : Text) → has_prefix k (token_prefix id) ≡ true → Dict.get s.tokens k ≡ none
  pub no_logins : (k : Text) → Dict.get s.login_user k ≢ some id
  pub no_login_rows : (k : Text) → Dict.get s0.login_user k ≡ some id → Dict.get s.logins k ≡ none
  pub no_api_keys : (k : Text) (x : ApiKey) → Dict.get s.api_keys k ≡ some x → x.user_id ≢ id
  pub no_sessions :
      (k : Text) (x : RefreshToken) → Dict.get s.refresh_tokens k ≡ some x → x.user_id ≢ id
  pub no_codes : (k : Text) (x : Code) → Dict.get s.oauth_codes k ≡ some x → x.user_id ≢ id
  pub no_consents : (k : Text) (x : Consent) → Dict.get s.oauth_consents k ≡ some x → x.user_id ≢ id
  pub no_grants : (k : Text) (x : Grant) → Dict.get s.oauth_grants k ≡ some x → x.user_id ≢ id

-- Of the entries that a sweep by owner leaves, none has this owner.
swept :
    {V : Type 0} (d : Dict Text V) (owner : V → Text) (id k : Text) (x : V)
    → Dict.get (Dict.drop_where d (λ _ v. owner v == id)) k ≡ some x
    → owner x ≢ id
swept d owner id k x h e = ground (
  arith,
  get-drop_where d (λ _ v. owner v == id) k,
  text_beq_iff (owner x) id,
  Option-cases (Dict.get d k),
)

-- The entries of other owners stay.
pub spared :
    {V : Type 0} (d : Dict Text V) (owner : V → Text) (id k : Text) (x : V)
    → Dict.get d k ≡ some x
    → owner x ≢ id
    → Dict.get (Dict.drop_where d (λ _ v. owner v == id)) k ≡ some x
spared d owner id k x h n =
    ground (arith, get-drop_where d (λ _ v. owner v == id) k, text_beq_iff (owner x) id)

module _ (s : Store) (id : Text) where
  -- After a user was deleted no row of any kind is left that belongs to the user: neither the user nor
  -- roles, claims, tokens, API keys, refresh sessions, codes, consents or grants, nor the two rows of a
  -- login that was bound to the user.
  pub cascade_delete-IsGone : IsGone s (cascade_delete s id) id
  unfolding cascade_delete
  cascade_delete-IsGone = record {
    no_user = ground (arith, get-remove s.users id id, text_beq_iff id id);
    no_roles = ground (arith, get-remove s.user_roles id id, text_beq_iff id id);
    no_claims = ground (arith, get-remove s.user_claims id id, text_beq_iff id id);
    no_tokens = λ k h. ground (
      arith,
      get-drop_where s.tokens (λ j _. has_prefix j (token_prefix id)) k,
      Option-cases (Dict.get s.tokens k),
    );
    no_logins = λ k h. swept s.login_user (λ u. u) id k id h refl;
    no_login_rows = λ k h. ground (
      arith,
      get-drop_where s.logins
          (λ i _. elim (Dict.get s.login_user i) [ none ↦ false | some uid ↦ uid == id ]) k,
      text_beq_iff id id,
      Option-cases (Dict.get s.logins k),
    );
    no_api_keys = swept s.api_keys (λ x. x.user_id) id;
    no_sessions = swept s.refresh_tokens (λ x. x.user_id) id;
    no_codes = swept s.oauth_codes (λ x. x.user_id) id;
    no_consents = swept s.oauth_consents (λ x. x.user_id) id;
    no_grants = swept s.oauth_grants (λ x. x.user_id) id;
  }

-- What `t` keeps of the rows of user `j` in `s`.
pub record KeepsRows (s t : Store) (j : Text) : Type 0 where
  pub user : Dict.get t.users j ≡ Dict.get s.users j
  pub roles_of : Dict.get t.user_roles j ≡ Dict.get s.user_roles j
  pub claims_of : Dict.get t.user_claims j ≡ Dict.get s.user_claims j
  pub tokens_of :
      (provider name : Text)
      → Dict.get t.tokens (token_key j provider name)
        ≡ Dict.get s.tokens (token_key j provider name)
  pub logins_of :
      (k : Text)
      → Dict.get s.login_user k ≡ some j
      → (Dict.get t.login_user k ≡ some j) × (Dict.get t.logins k ≡ Dict.get s.logins k)
  pub api_keys_of :
      (k : Text) (x : ApiKey)
      → Dict.get s.api_keys k ≡ some x
      → x.user_id ≡ j
      → Dict.get t.api_keys k ≡ some x
  pub sessions_of :
      (k : Text) (x : RefreshToken)
      → Dict.get s.refresh_tokens k ≡ some x
      → x.user_id ≡ j
      → Dict.get t.refresh_tokens k ≡ some x
  pub codes_of :
      (k : Text) (x : Code)
      → Dict.get s.oauth_codes k ≡ some x
      → x.user_id ≡ j
      → Dict.get t.oauth_codes k ≡ some x
  pub consents_of :
      (k : Text) (x : Consent)
      → Dict.get s.oauth_consents k ≡ some x
      → x.user_id ≡ j
      → Dict.get t.oauth_consents k ≡ some x
  pub grants_of :
      (k : Text) (x : Grant)
      → Dict.get s.oauth_grants k ≡ some x
      → x.user_id ≡ j
      → Dict.get t.oauth_grants k ≡ some x

module _ (s : Store) (id j : Text) (plain_id : IsPlain id) (plain_j : IsPlain j)
    (other : id ≢ j) where
  token_spared :
      (provider name : Text) → has_prefix (token_key j provider name) (token_prefix id) ≡ false
  token_spared provider name =
      elim (Bool-cases (has_prefix (token_key j provider name) (token_prefix id))) [
        | inl h ↦ absurd (other (owner_of_token_key id j provider name plain_id plain_j h))
        | inr h ↦ h
      ]

  login_kept :
      (k : Text)
      → Dict.get s.login_user k ≡ some j
      → Dict.get (cascade_delete s id).logins k ≡ Dict.get s.logins k
  unfolding cascade_delete
  login_kept k h = ground (
    arith,
    get-drop_where s.logins
        (λ i _. elim (Dict.get s.login_user i) [ none ↦ false | some uid ↦ uid == id ]) k,
    text_beq_iff j id,
    Option-cases (Dict.get s.logins k),
  )

  -- Deleting a user leaves the rows of every other user as they were, if neither id holds a bar.
  pub cascade_delete-KeepsRows : KeepsRows s (cascade_delete s id) j
  unfolding cascade_delete
  cascade_delete-KeepsRows = record {
    user = ground (arith, get-remove s.users id j, text_beq_iff id j);
    roles_of = ground (arith, get-remove s.user_roles id j, text_beq_iff id j);
    claims_of = ground (arith, get-remove s.user_claims id j, text_beq_iff id j);
    tokens_of = λ provider name. ground (
      arith,
      get-drop_where s.tokens (λ i _. has_prefix i (token_prefix id)) (token_key j provider name),
      token_spared provider name,
      Option-cases (Dict.get s.tokens (token_key j provider name)),
    );
    logins_of = λ k h. (spared s.login_user (λ u. u) id k j h (λ e. other (sym e)), login_kept k h);
    api_keys_of = λ k x h e. spared s.api_keys (λ x. x.user_id) id k x h (λ o. other (sym o ∙ e));
    sessions_of =
        λ k x h e. spared s.refresh_tokens (λ x. x.user_id) id k x h (λ o. other (sym o ∙ e));
    codes_of = λ k x h e. spared s.oauth_codes (λ x. x.user_id) id k x h (λ o. other (sym o ∙ e));
    consents_of =
        λ k x h e. spared s.oauth_consents (λ x. x.user_id) id k x h (λ o. other (sym o ∙ e));
    grants_of = λ k x h e. spared s.oauth_grants (λ x. x.user_id) id k x h (λ o. other (sym o ∙ e));
  }
