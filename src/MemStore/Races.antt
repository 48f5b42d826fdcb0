-- ===== src/MemStore/Races.antt =====
-- stores/memstore/oauth.go: any interleaving of the methods of the OAuth store. Each method holds the
-- lock, so an interleaving of calls is a sequence of operations.
pub mod Codes
pub mod Rotations
pub mod Assertions
use go_idento.Prelude.{
  ℕ, zero, suc, ◌≤◌, ◌≡◌, refl, ◌≢◌, ◌⊎◌, inl, inr, Bool, true, false, ◌&&◌, Option, none, some,
  List, [], ◌∷◌, arith, ◌==◌, Text, text_eq, text_beq_iff, pair_eq, pair_beq_iff, if◌then◌else◌,
  ltb, Option-cases, Bool-cases, is_some,
}
use go_idento.Dict
use go_idento.Dict.{get-put, get-remove, get-drop_where, left_by_drop_where}
use go_idento.Oauth.Types.{Client, Code, Consent, Grant}
use go_idento.MemStore.State.{Store}
use go_idento.MemStore.Oauth as Methods

-- One call of a method that writes.
pub data Call : Type 0 where
  create_client : Client → Call
  touch_client : Text → ℕ → Call
  delete_stale_clients : ℕ → Call
  create_code : Code → Call
  mark_code_used : Text → Text → ℕ → Call
  delete_expired_codes : ℕ → Call
  save_consent : Consent → Call
  delete_consent : Text → Text → Call
  create_grant : Grant → Call
  rotate_grant : Text → Text → Text → ℕ → ℕ → Call
  delete_grant : Text → Call
  delete_user_client_grants : Text → Text → Call
  delete_expired_grants : ℕ → Call
  use_client_assertion : Text → Text → ℕ → Call
  delete_expired_client_assertions : ℕ → Call

-- The Boolean reply, if the method has one, and the state after the call.
unfoldable pub exec : Store → Call → Bool × Store
exec s (create_client c) = (false, Methods.create_client s c)
exec s (touch_client id at) = (false, Methods.touch_client s id at)
exec s (delete_stale_clients b) = (false, (Methods.delete_stale_clients s b).1)
exec s (create_code c) = (false, Methods.create_code s c)
exec s (mark_code_used h g at) = Methods.mark_code_used s h g at
exec s (delete_expired_codes b) = (false, (Methods.delete_expired_codes s b).1)
exec s (save_consent c) = (false, Methods.save_consent s c)
exec s (delete_consent u c) = (false, Methods.delete_consent s u c)
exec s (create_grant g) = (false, Methods.create_grant s g)
exec s (rotate_grant id o n e at) = Methods.rotate_grant s id o n e at
exec s (delete_grant id) = (false, Methods.delete_grant s id)
exec s (delete_user_client_grants u c) = (false, (Methods.delete_user_client_grants s u c).1)
exec s (delete_expired_grants b) = (false, (Methods.delete_expired_grants s b).1)
exec s (use_client_assertion c j e) = Methods.use_client_assertion s c j e
exec s (delete_expired_client_assertions b) =
    (false, (Methods.delete_expired_client_assertions s b).1)

-- How many of the calls that count were answered with true.
unfoldable pub wins : (Call → Bool) → Store → List Call → ℕ
wins counts s [] = 0
wins counts s (c ∷ cs) =
    let rest = wins counts (exec s c).1 cs in if counts c && (exec s c).0 then suc rest else rest

abbrev pub Each : (Call → Type 0) → List Call → Type 0
Each P [] = Unit
Each P (c ∷ cs) = P c × Each P cs

-- One success makes each later one impossible.
module _ (counts : Call → Bool) (Allowed : Call → Type 0) (Closed : Store → Type 0)
    (stays : (s : Store) (c : Call)
      → Allowed c
      → Closed s
      → Closed (exec s c).1 × ((counts c && (exec s c).0) ≡ false))
    (closes : (s : Store) (c : Call)
      → Allowed c
      → (counts c && (exec s c).0) ≡ true
      → Closed (exec s c).1) where
  wins_closed : (s : Store) (cs : List Call) → Each Allowed cs → Closed s → wins counts s cs ≡ 0
  unfolding wins
  wins_closed s [] a h = refl
  wins_closed s (c ∷ cs) a h =
      rw ((stays s c a.0 h).1) (wins_closed (exec s c).1 cs a.1 (stays s c a.0 h).0)

  pub wins-le-one : (s : Store) (cs : List Call) → Each Allowed cs → wins counts s cs ≤ 1
  unfolding wins
  wins-le-one s [] a = omega arith
  wins-le-one s (c ∷ cs) a = elim (Bool-cases (counts c && (exec s c).0)) [
    | inl w ↦ rw w (omega (arith, wins_closed (exec s c).1 cs a.1 (closes s c a.0 w)))
    | inr l ↦ rw l (wins-le-one (exec s c).1 cs a.1)
  ]
