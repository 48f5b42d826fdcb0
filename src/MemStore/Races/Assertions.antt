-- ===== src/MemStore/Races/Assertions.antt =====
-- stores/memstore/oauth.go: a client assertion is accepted once.
use go_idento.Prelude.{
  ℕ, ◌≤◌, ◌≡◌, refl, ◌&&◌, Bool, true, false, Option, none, some, List, arith, ◌==◌, Text, text_eq,
  pair_eq, pair_beq_iff, ltb,
}
use go_idento.Dict
use go_idento.Dict.{get-put, get-drop_where}
use go_idento.MemStore.State.{Store}
use go_idento.MemStore.Oauth as Methods
use go_idento.MemStore.Races.{
  Call, exec, wins, Each, wins-le-one, create_client, touch_client, mark_code_used, rotate_grant,
  use_client_assertion, delete_expired_client_assertions,
}

-- The calls that present this assertion.
abbrev pub presents : Text × Text → Call → Bool
presents k (use_client_assertion c j e) = (c, j) == k
presents k (create_client c) = false
presents k _ = false

-- Uses of the assertion record an expiry that no sweep is past.
abbrev pub SweepsLate : Text × Text → ℕ → Call → Type 0
SweepsLate k horizon (use_client_assertion c j e) = (c, j) ≡ k → horizon ≤ e
SweepsLate k horizon (delete_expired_client_assertions before) = before ≤ horizon
SweepsLate k horizon _ = Unit

abbrev IsSeen : Text × Text → ℕ → Store → Type 0
IsSeen k horizon s = (e : ℕ) × (Dict.get s.oauth_jtis k ≡ some e) × (horizon ≤ e)

use_assertion-IsSeen :
    (k : Text × Text) (horizon : ℕ) (s : Store) (c j : Text) (e : ℕ) (r : Option ℕ)
    → Dict.get s.oauth_jtis (c, j) ≡ r
    → IsSeen k horizon s
    → IsSeen k horizon (exec s (use_client_assertion c j e)).1
      × ((presents k (use_client_assertion c j e) && (exec s (use_client_assertion c j e)).0)
          ≡ false)
unfolding exec Methods.use_client_assertion
use_assertion-IsSeen k horizon s c j e (some x) q (t, seen, late) =
    rw q ((t, seen, late), ground arith)
use_assertion-IsSeen k horizon s c j e none q (t, seen, late) = rw q (
  (t, ground (arith, get-put s.oauth_jtis (c, j) k e, pair_beq_iff {A = Text} (c, j) k), late),
  ground (arith, pair_beq_iff {A = Text} (c, j) k),
)

exec-IsSeen :
    (k : Text × Text) (horizon : ℕ) (s : Store) (c : Call)
    → SweepsLate k horizon c
    → IsSeen k horizon s
    → IsSeen k horizon (exec s c).1 × ((presents k c && (exec s c).0) ≡ false)
unfolding exec Methods.create_code Methods.delete_expired_codes Methods.create_client
    Methods.touch_client Methods.delete_stale_clients Methods.save_consent Methods.delete_consent
    Methods.create_grant Methods.mark_code_used Methods.delete_grant
    Methods.delete_user_client_grants Methods.delete_expired_grants Methods.rotate_grant
    Methods.delete_expired_client_assertions
exec-IsSeen k horizon s (use_client_assertion c j e) a seen =
    use_assertion-IsSeen k horizon s c j e _ refl seen
exec-IsSeen k horizon s (delete_expired_client_assertions before) a (t, seen, late) =
    ((t, ground (arith, get-drop_where s.oauth_jtis (λ _ exp. ltb exp before) k), late), refl)
exec-IsSeen k horizon s (touch_client i at) a (t, seen, late) = ((t, ground arith, late), refl)
exec-IsSeen k horizon s (mark_code_used h g at) a (t, seen, late) = ((t, ground arith, late), refl)
exec-IsSeen k horizon s (rotate_grant i o n e at) a (t, seen, late) =
    ((t, ground arith, late), refl)
exec-IsSeen k horizon s _ a seen = (seen, refl)

use_assertion_records :
    (k : Text × Text) (horizon : ℕ) (s : Store) (c j : Text) (e : ℕ) (r : Option ℕ)
    → Dict.get s.oauth_jtis (c, j) ≡ r
    → ((c, j) ≡ k → horizon ≤ e)
    → (presents k (use_client_assertion c j e) && (exec s (use_client_assertion c j e)).0) ≡ true
    → IsSeen k horizon (exec s (use_client_assertion c j e)).1
unfolding exec Methods.use_client_assertion
use_assertion_records k horizon s c j e (some x) q a = rw q (λ w. ground arith)
use_assertion_records k horizon s c j e none q a = rw q (λ w. (
  e,
  ground (arith, get-put s.oauth_jtis (c, j) k e, pair_beq_iff {A = Text} (c, j) k),
  a (ground (arith, pair_beq_iff {A = Text} (c, j) k)),
))

presented_closes :
    (k : Text × Text) (horizon : ℕ) (s : Store) (c : Call)
    → SweepsLate k horizon c
    → (presents k c && (exec s c).0) ≡ true
    → IsSeen k horizon (exec s c).1
presented_closes k horizon s (use_client_assertion c j e) a w =
    use_assertion_records k horizon s c j e _ refl a w
presented_closes k horizon s (create_client c) a w = cc
presented_closes k horizon s _ a w = cc

-- However calls of the store interleave, at most one use of a client assertion is accepted, as long
-- as no sweep is later than a time up to which each use of the assertion records it.
pub assertion_used_once :
    (k : Text × Text) (horizon : ℕ) (s : Store) (cs : List Call)
    → Each (SweepsLate k horizon) cs
    → wins (presents k) s cs ≤ 1
assertion_used_once k horizon =
    wins-le-one (presents k) (SweepsLate k horizon) (IsSeen k horizon) (exec-IsSeen k horizon)
      (presented_closes k horizon)
