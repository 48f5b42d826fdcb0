-- ===== src/MemStore/Races/Rotations.antt =====
-- stores/memstore/oauth.go: a refresh secret is rotated away once.
use go_idento.Prelude.{
  ℕ, ◌≤◌, ◌≡◌, refl, ◌≢◌, inl, inr, Bool, true, false, ◌&&◌, Option, none, some, List, arith, ◌==◌,
  Text, text_eq, text_beq_iff, Bool-cases,
}
use go_idento.Dict
use go_idento.Dict.{get-put, get-remove, left_by_drop_where}
use go_idento.Oauth.Types.{Grant}
use go_idento.MemStore.State.{Store}
use go_idento.MemStore.Oauth as Methods
use go_idento.MemStore.Branches.{rotate_missing, rotate_lost, rotate_won}
use go_idento.MemStore.Races.{
  Call, exec, wins, Each, wins-le-one, create_client, touch_client, mark_code_used, create_grant,
  rotate_grant, delete_grant, delete_user_client_grants, delete_expired_grants,
  use_client_assertion,
}

-- The calls that rotate the grant away from this hash.
abbrev pub rotates : Text → Text → Call → Bool
rotates id old (rotate_grant i o n e at) = i == id && o == old
rotates id old (create_client c) = false
rotates id old _ = false

-- No call gives the grant this hash.
abbrev pub KeepsAway : Text → Text → Call → Type 0
KeepsAway id old (rotate_grant i o n e at) = i ≡ id → n ≢ old
KeepsAway id old (create_grant g) = g.id ≡ id → g.token_hash ≢ old
KeepsAway id old _ = Unit

abbrev IsRotated : Text → Text → Store → Type 0
IsRotated id old s = (g : Grant) → Dict.get s.oauth_grants id ≡ some g → g.token_hash ≢ old

IsRotated-put :
    (id old : Text) (s : Store) (k : Text) (g : Grant)
    → (k ≡ id → g.token_hash ≢ old)
    → ((x : Grant) → Dict.get s.oauth_grants id ≡ some x → k ≢ id → x.token_hash ≢ old)
    → (x : Grant) → Dict.get (Dict.put s.oauth_grants k g) id ≡ some x
    → x.token_hash ≢ old
IsRotated-put id old s k g away sp x h q =
    ground (arith, get-put s.oauth_grants k id g, text_beq_iff k id, away, sp x)

rotate-IsRotated :
    (id old : Text) (s : Store) (i o n : Text) (e at : ℕ) (r : Option Grant)
    → Dict.get s.oauth_grants i ≡ r
    → (i ≡ id → n ≢ old)
    → IsRotated id old s
    → IsRotated id old (exec s (rotate_grant i o n e at)).1
      × ((rotates id old (rotate_grant i o n e at) && (exec s (rotate_grant i o n e at)).0) ≡ false)
unfolding exec
rotate-IsRotated id old s i o n e at none q a sp =
    rw (rotate_missing s i o n e at q) (sp, ground arith)
rotate-IsRotated id old s i o n e at (some g) q a sp = elim (Bool-cases (g.token_hash == o)) [
  | inr lost ↦ rw (rotate_lost s i o n e at g q lost) (sp, ground arith)
  | inl won ↦ rw (rotate_won s i o n e at g q won) (
    IsRotated-put id old s i _ a (λ x h _. sp x h),
    ground (arith, text_beq_iff i id, text_beq_iff o old, text_beq_iff g.token_hash o, sp g),
  )
]

exec-IsRotated :
    (id old : Text) (s : Store) (c : Call)
    → KeepsAway id old c
    → IsRotated id old s
    → IsRotated id old (exec s c).1 × ((rotates id old c && (exec s c).0) ≡ false)
unfolding exec Methods.create_code Methods.delete_expired_codes Methods.create_client
    Methods.touch_client Methods.delete_stale_clients Methods.save_consent Methods.delete_consent
    Methods.create_grant Methods.mark_code_used Methods.delete_grant
    Methods.delete_user_client_grants Methods.delete_expired_grants Methods.use_client_assertion
    Methods.delete_expired_client_assertions
exec-IsRotated id old s (rotate_grant i o n e at) a sp =
    rotate-IsRotated id old s i o n e at _ refl a sp
exec-IsRotated id old s (create_grant g) a sp =
    (IsRotated-put id old s g.id g a (λ x h _. sp x h), refl)
exec-IsRotated id old s (delete_grant i) a sp =
    (λ x h. ground (arith, get-remove s.oauth_grants i id, sp x), refl)
exec-IsRotated id old s (delete_user_client_grants u c) a sp =
    (λ x h. sp x (left_by_drop_where s.oauth_grants _ id x h).0, refl)
exec-IsRotated id old s (delete_expired_grants b) a sp =
    (λ x h. sp x (left_by_drop_where s.oauth_grants _ id x h).0, refl)
exec-IsRotated id old s (touch_client i at) a sp = (λ x h. sp x (ground arith), refl)
exec-IsRotated id old s (mark_code_used h g at) a sp = (λ x q. sp x (ground arith), refl)
exec-IsRotated id old s (use_client_assertion c j e) a sp = (λ x h. sp x (ground arith), refl)
exec-IsRotated id old s _ a sp = (sp, refl)

rotation_won :
    (id old : Text) (s : Store) (i o n : Text) (e at : ℕ) (r : Option Grant)
    → Dict.get s.oauth_grants i ≡ r
    → (i ≡ id → n ≢ old)
    → (rotates id old (rotate_grant i o n e at) && (exec s (rotate_grant i o n e at)).0) ≡ true
    → IsRotated id old (exec s (rotate_grant i o n e at)).1
unfolding exec
rotation_won id old s i o n e at none q a = rw (rotate_missing s i o n e at q) (λ w. ground arith)
rotation_won id old s i o n e at (some g) q a = elim (Bool-cases (g.token_hash == o)) [
  | inr lost ↦ rw (rotate_lost s i o n e at g q lost) (λ w. ground arith)
  | inl won ↦
      rw (rotate_won s i o n e at g q won)
        (λ w. IsRotated-put id old s i _ a (λ x h miss. ground (arith, text_beq_iff i id)))
]

rotation_closes :
    (id old : Text) (s : Store) (c : Call)
    → KeepsAway id old c
    → (rotates id old c && (exec s c).0) ≡ true
    → IsRotated id old (exec s c).1
rotation_closes id old s (rotate_grant i o n e at) a w = rotation_won id old s i o n e at _ refl a w
rotation_closes id old s (create_client c) a w = cc
rotation_closes id old s _ a w = cc

-- However calls of the store interleave, at most one of those that rotate a grant away from a given
-- hash succeeds, as long as no call gives the grant this hash again.
pub rotated_once :
    (id old : Text) (s : Store) (cs : List Call)
    → Each (KeepsAway id old) cs
    → wins (rotates id old) s cs ≤ 1
rotated_once id old =
    wins-le-one (rotates id old) (KeepsAway id old) (IsRotated id old) (exec-IsRotated id old)
      (rotation_closes id old)
