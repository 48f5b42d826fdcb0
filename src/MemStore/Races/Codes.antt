-- ===== src/MemStore/Races/Codes.antt =====
-- stores/memstore/oauth.go: an authorization code is redeemed once.
use go_idento.Prelude.{
  ℕ, ◌≤◌, ◌≡◌, refl, ◌≢◌, inl, inr, Bool, true, false, ◌&&◌, Option, none, some, List, arith, ◌==◌,
  Text, text_eq, text_beq_iff, is_some, Bool-cases,
}
use go_idento.Dict
use go_idento.Dict.{get-put, get-drop_where, left_by_drop_where, none_after_drop_where}
use go_idento.Oauth.Types.{Code}
use go_idento.MemStore.State.{Store}
use go_idento.MemStore.Oauth as Methods
use go_idento.MemStore.Branches.{mark_missing, mark_spent, mark_fresh}
use go_idento.MemStore.Races.{
  Call, exec, wins, Each, wins-le-one, create_client, touch_client, create_code, mark_code_used,
  delete_expired_codes, rotate_grant, use_client_assertion,
}

-- The calls that try to redeem the code with this hash.
abbrev pub redeems : Text → Call → Bool
redeems hash (mark_code_used h g at) = h == hash
redeems hash (create_client c) = false
redeems hash _ = false

-- No call issues another code with this hash.
abbrev pub KeepsCode : Text → Call → Type 0
KeepsCode hash (create_code c) = c.code_hash ≢ hash
KeepsCode hash _ = Unit

-- The code cannot be redeemed any more.
abbrev IsSpent : Text → Store → Type 0
IsSpent hash s = (c : Code) → Dict.get s.oauth_codes hash ≡ some c → is_some c.used_at ≡ true

-- Writing a code keeps another code spent, and this one if it is written as used.
IsSpent-put :
    (hash : Text) (s : Store) (k : Text) (c : Code)
    → (k ≡ hash → is_some c.used_at ≡ true)
    → ((x : Code) → Dict.get s.oauth_codes hash ≡ some x → k ≢ hash → is_some x.used_at ≡ true)
    → (x : Code) → Dict.get (Dict.put s.oauth_codes k c) hash ≡ some x
    → is_some x.used_at ≡ true
IsSpent-put hash s k c used sp x h =
    ground (arith, get-put s.oauth_codes k hash c, text_beq_iff k hash, used, sp x)

mark-IsSpent :
    (hash : Text) (s : Store) (h g : Text) (at : ℕ) (o : Option Code)
    → Dict.get s.oauth_codes h ≡ o
    → IsSpent hash s
    → IsSpent hash (exec s (mark_code_used h g at)).1
      × ((redeems hash (mark_code_used h g at) && (exec s (mark_code_used h g at)).0) ≡ false)
unfolding exec
mark-IsSpent hash s h g at none e sp = rw (mark_missing s h g at e) (sp, ground arith)
mark-IsSpent hash s h g at (some c) e sp = elim (Bool-cases (is_some c.used_at)) [
  | inl used ↦ rw (mark_spent s h g at c e used) (sp, ground arith)
  | inr unused ↦ rw (mark_fresh s h g at c e unused) (
    IsSpent-put hash s h _ (λ _. refl) (λ x q _. sp x q),
    ground (arith, text_beq_iff h hash, sp c),
  )
]

exec-IsSpent :
    (hash : Text) (s : Store) (c : Call)
    → KeepsCode hash c
    → IsSpent hash s
    → IsSpent hash (exec s c).1 × ((redeems hash c && (exec s c).0) ≡ false)
unfolding exec Methods.create_code Methods.delete_expired_codes Methods.create_client
    Methods.touch_client Methods.delete_stale_clients Methods.save_consent Methods.delete_consent
    Methods.create_grant Methods.rotate_grant Methods.delete_grant Methods.delete_user_client_grants
    Methods.delete_expired_grants Methods.use_client_assertion
    Methods.delete_expired_client_assertions
exec-IsSpent hash s (mark_code_used h g at) a sp = mark-IsSpent hash s h g at _ refl sp
exec-IsSpent hash s (create_code c) a sp =
    (IsSpent-put hash s c.code_hash c (λ e. absurd (a e)) (λ x q _. sp x q), refl)
exec-IsSpent hash s (delete_expired_codes b) a sp =
    (λ x h. sp x (left_by_drop_where s.oauth_codes _ hash x h).0, refl)
exec-IsSpent hash s (touch_client id at) a sp = (λ x h. sp x (ground arith), refl)
exec-IsSpent hash s (rotate_grant id o n e at) a sp = (λ x h. sp x (ground arith), refl)
exec-IsSpent hash s (use_client_assertion c j e) a sp = (λ x h. sp x (ground arith), refl)
exec-IsSpent hash s _ a sp = (sp, refl)

mark_spends :
    (hash : Text) (s : Store) (h g : Text) (at : ℕ) (o : Option Code)
    → Dict.get s.oauth_codes h ≡ o
    → (redeems hash (mark_code_used h g at) && (exec s (mark_code_used h g at)).0) ≡ true
    → IsSpent hash (exec s (mark_code_used h g at)).1
unfolding exec
mark_spends hash s h g at none e = rw (mark_missing s h g at e) (λ w. ground arith)
mark_spends hash s h g at (some c) e = elim (Bool-cases (is_some c.used_at)) [
  | inl used ↦ rw (mark_spent s h g at c e used) (λ w. ground arith)
  | inr unused ↦
      rw (mark_fresh s h g at c e unused)
        (λ w. IsSpent-put hash s h _ (λ _. refl) (λ x q n. ground (arith, text_beq_iff h hash)))
]

redeem_spends :
    (hash : Text) (s : Store) (c : Call)
    → KeepsCode hash c
    → (redeems hash c && (exec s c).0) ≡ true
    → IsSpent hash (exec s c).1
redeem_spends hash s (mark_code_used h g at) a w = mark_spends hash s h g at _ refl w
redeem_spends hash s (create_client c) a w = cc
redeem_spends hash s _ a w = cc

-- However calls of the store interleave, among them any number that redeem the code with this hash,
-- at most one of these succeeds, as long as no second code is issued with the hash.
pub redeemed_once :
    (hash : Text) (s : Store) (cs : List Call)
    → Each (KeepsCode hash) cs
    → wins (redeems hash) s cs ≤ 1
redeemed_once hash =
    wins-le-one (redeems hash) (KeepsCode hash) (IsSpent hash) (exec-IsSpent hash)
      (redeem_spends hash)
