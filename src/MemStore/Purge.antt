-- ===== src/MemStore/Purge.antt =====
-- stores/memstore/memstore.go: the sweep of stale guests.
use go_idento.Prelude.{
  ℕ, ◌≡◌, ◌≢◌, ◌==◌, refl, true, some, List, [], ◌∷◌, arith, Text, text_eq, text_beq_iff,
  Option-cases, Bool-cases, inl, inr, In, subst, sym, ◌∙◌,
}
use go_idento.Dict
use go_idento.Dict.{
  Dict, get-remove, left_by_drop_where, none_after_drop_where, In-select, select-In, unless,
  size-drop_where,
}
use go_idento.Identity.Entities.{User}
use go_idento.MemStore.State.{Store}
use go_idento.MemStore.Cascade.{IsGone, cascade_delete-IsGone, spared}
use go_idento.MemStore.Users.{cascade_delete, delete_each, stale_guest, keys, purge_anonymous_users}

-- A cascade brings no row back.
cascade_delete-keeps-IsGone :
    (s0 s : Store) (id j : Text) → IsGone s0 s j → IsGone s0 (cascade_delete s id) j
unfolding cascade_delete
cascade_delete-keeps-IsGone s0 s id j g = record {
  no_user = ground (arith, get-remove s.users id j);
  no_roles = ground (arith, get-remove s.user_roles id j);
  no_claims = ground (arith, get-remove s.user_claims id j);
  no_tokens = λ k h. none_after_drop_where s.tokens _ k (g.no_tokens k h);
  no_logins = λ k h. g.no_logins k (left_by_drop_where s.login_user _ k j h).0;
  no_login_rows = λ k h. none_after_drop_where s.logins _ k (g.no_login_rows k h);
  no_api_keys = λ k x h. g.no_api_keys k x (left_by_drop_where s.api_keys _ k x h).0;
  no_sessions = λ k x h. g.no_sessions k x (left_by_drop_where s.refresh_tokens _ k x h).0;
  no_codes = λ k x h. g.no_codes k x (left_by_drop_where s.oauth_codes _ k x h).0;
  no_consents = λ k x h. g.no_consents k x (left_by_drop_where s.oauth_consents _ k x h).0;
  no_grants = λ k x h. g.no_grants k x (left_by_drop_where s.oauth_grants _ k x h).0;
}

delete_each-keeps-IsGone :
    (s0 s : Store) (ids : List Text) (j : Text) → IsGone s0 s j → IsGone s0 (delete_each s ids) j
unfolding delete_each
delete_each-keeps-IsGone s0 s [] j g = g
delete_each-keeps-IsGone s0 s (id ∷ ids) j g =
    delete_each-keeps-IsGone s0 (cascade_delete s id) ids j
      (cascade_delete-keeps-IsGone s0 s id j g)

-- The logins of a user are still there after another one was deleted.
from_before : (s t : Store) (id j : Text) → id ≢ j → IsGone (cascade_delete s id) t j → IsGone s t j
unfolding cascade_delete
from_before s t id j other g = record {
  no_user = g.no_user;
  no_roles = g.no_roles;
  no_claims = g.no_claims;
  no_tokens = g.no_tokens;
  no_logins = g.no_logins;
  no_login_rows =
      λ k h. g.no_login_rows k (spared s.login_user (λ u. u) id k j h (λ e. other (sym e)));
  no_api_keys = g.no_api_keys;
  no_sessions = g.no_sessions;
  no_codes = g.no_codes;
  no_consents = g.no_consents;
  no_grants = g.no_grants;
}

delete_each-IsGone :
    (s : Store) (ids : List Text) (j : Text) → In j ids → IsGone s (delete_each s ids) j
unfolding delete_each
delete_each-IsGone s [] j i = absurd i
delete_each-IsGone s (id ∷ ids) j i =
    let later = delete_each-IsGone (cascade_delete s id) ids j in
    elim (Bool-cases (id == j)) [
      | inl e ↦ delete_each-keeps-IsGone s (cascade_delete s id) ids j (
          subst (λ t. IsGone s (cascade_delete s id) t) ((text_beq_iff id j).0 e)
            (cascade_delete-IsGone s id))
      | inr e ↦
          let other : id ≢ j = ground (arith, text_beq_iff id j) in
          from_before s _ id j other (later (in_rest other i))
    ]
  where
    in_rest : id ≢ j → In j (id ∷ ids) → In j ids
    in_rest other (inl e) = absurd (other (sym e))
    in_rest other (inr m) = m

get-delete_each :
    (s : Store) (ids : List Text) (j : Text)
    → (In j ids → ⊥)
    → Dict.get (delete_each s ids).users j ≡ Dict.get s.users j
unfolding delete_each
get-delete_each s [] j h = refl
get-delete_each s (id ∷ ids) j h =
    get-delete_each (cascade_delete s id) ids j (λ i. h (inr i)) ∙ kept
  where
    kept : Dict.get (cascade_delete s id).users j ≡ Dict.get s.users j
    kept =
        unfold cascade_delete in
        ground (arith, get-remove s.users id j, text_beq_iff id j, λ (e : j ≡ id). h (inl e))

In-keys : (m : List (Text × User)) (k : Text) (u : User) → In (k, u) m → In k (keys m)
In-keys [] k u i = absurd i
In-keys ((j, w) ∷ m) k u (inl e) = inl (ground arith)
In-keys ((j, w) ∷ m) k u (inr i) = inr (In-keys m k u i)

keys-In : (m : List (Text × User)) (k : Text) → In k (keys m) → (u : User) × In (k, u) m
keys-In [] k i = absurd i
keys-In ((j, w) ∷ m) k (inl e) = (w, inl (ground arith))
keys-In ((j, w) ∷ m) k (inr i) = let (u, n) = keys-In m k i in (u, inr n)

module _ (s : Store) (before : ℕ) where
  -- A guest created before the cutoff is gone after the sweep, with all rows that belong to it, both
  -- rows of each of its logins included.
  pub purged-IsGone :
      (id : Text) (u : User)
      → Dict.get s.users id ≡ some u
      → stale_guest before u ≡ true
      → IsGone s (purge_anonymous_users s before).1 id
  unfolding purge_anonymous_users
  purged-IsGone id u h t =
      delete_each-IsGone s _ id
        (In-keys _ id u (In-select s.users (λ _ u. stale_guest before u) id u h t))

  selected :
      (id : Text)
      → In id (keys (Dict.select s.users (λ _ u. stale_guest before u)))
      → (u : User) × (Dict.get s.users id ≡ some u) × (stale_guest before u ≡ true)
  selected id i =
      let (u, m) = keys-In _ id i in
      let (h, t) = select-In s.users (λ _ u. stale_guest before u) id u m in (u, h, t)

  untouched :
      (id : Text)
      → ((u : User) → Dict.get s.users id ≡ some u → stale_guest before u ≡ true → ⊥)
      → Dict.get (purge_anonymous_users s before).1.users id ≡ Dict.get s.users id
  unfolding purge_anonymous_users
  untouched id h = get-delete_each s _ id λ i. let (u, e, t) = selected id i in h u e t

  -- Every other user row is as it was: exactly the stale guests are removed.
  pub purge-users :
      (id : Text)
      → Dict.get (purge_anonymous_users s before).1.users id
        ≡ unless (λ _ u. stale_guest before u) id (Dict.get s.users id)
  purge-users id = elim (Option-cases (Dict.get s.users id)) [
    | inl e ↦ untouched id (λ u h t. cc (e, h)) ∙ rw e
    | inr (u, e) ↦ elim (Bool-cases (stale_guest before u)) [
      | inl t ↦ rw (e, t) (purged-IsGone id u e t).no_user
      | inr t ↦ untouched id (λ v h t'. ground arith) ∙ rw (e, t)
    ]
  ]
