-- ===== src/MemStore/Branches.antt =====
-- stores/memstore/oauth.go: the branches of the compare-and-swap methods, as equations.
use go_idento.Prelude.{ℕ, ◌≡◌, true, false, none, some, arith, ◌==◌, Text, text_eq, is_some}
use go_idento.Dict
use go_idento.Oauth.Types.{Code, Grant}
use go_idento.MemStore.State.{Store}
use go_idento.MemStore.Oauth.{mark_code_used, rotate_grant}

abbrev pub marked : Store → Text → Code → Text → ℕ → Store
marked s hash c g at = record s {
  oauth_codes = Dict.put s.oauth_codes hash (record c { used_at = some at; grant_id = g });
}

abbrev pub rotated : Grant → Text → Text → ℕ → ℕ → Grant
rotated g old new expires at = record g {
  prev_token_hash = old;
  token_hash = new;
  expires_at = expires;
  last_used_at = some at;
}

module _ (s : Store) (hash g : Text) (at : ℕ) where
  pub mark_missing : Dict.get s.oauth_codes hash ≡ none → mark_code_used s hash g at ≡ (false, s)
  unfolding mark_code_used
  mark_missing e = ground arith

  pub mark_spent :
      (c : Code)
      → Dict.get s.oauth_codes hash ≡ some c
      → is_some c.used_at ≡ true
      → mark_code_used s hash g at ≡ (false, s)
  unfolding mark_code_used
  mark_spent c e u = ground arith

  pub mark_fresh :
      (c : Code)
      → Dict.get s.oauth_codes hash ≡ some c
      → is_some c.used_at ≡ false
      → mark_code_used s hash g at ≡ (true, marked s hash c g at)
  unfolding mark_code_used
  mark_fresh c e u = ground arith

module _ (s : Store) (id old new : Text) (expires at : ℕ) where
  pub rotate_missing :
      Dict.get s.oauth_grants id ≡ none → rotate_grant s id old new expires at ≡ (false, s)
  unfolding rotate_grant
  rotate_missing e = ground arith

  pub rotate_lost :
      (g : Grant)
      → Dict.get s.oauth_grants id ≡ some g
      → (g.token_hash == old) ≡ false
      → rotate_grant s id old new expires at ≡ (false, s)
  unfolding rotate_grant
  rotate_lost g e n = ground arith

  pub rotate_won :
      (g : Grant)
      → Dict.get s.oauth_grants id ≡ some g
      → (g.token_hash == old) ≡ true
      → rotate_grant s id old new expires at ≡ (
        true,
        record s { oauth_grants = Dict.put s.oauth_grants id (rotated g old new expires at) },
      )
  unfolding rotate_grant
  rotate_won g e y = ground arith
