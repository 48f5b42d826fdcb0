-- ===== src/MemStore/Updates.antt =====
-- stores/memstore/memstore.go: optimistic concurrency of `Update`.
use go_idento.Prelude.{
  ℕ, suc, ◌≤◌, ◌≡◌, refl, ◌≢◌, inl, inr, Bool, true, false, none, some, List, [], ◌∷◌, arith, ◌==◌,
  Text, text_eq, text_beq_iff, if◌then◌else◌, Bool-cases, Option-cases,
}
use go_idento.Dict
use go_idento.Dict.{get-put}
use go_idento.Identity.Errors.{Result, ok, err, not_found, concurrency_failure}
use go_idento.Identity.Entities.{User}
use go_idento.MemStore.State.{Store}
use go_idento.MemStore.Users.{update}

-- A write of a copy of the user, with the stamp that it draws if it succeeds.
pub record Write : Type 0 where
  pub copy : User
  pub fresh : Text

abbrev pub succeeded : {A : Type 0} → Result A → Bool
succeeded (ok a) = true
succeeded (err e) = false

-- How many of the writes succeed, one after another.
unfoldable pub accepted : Store → List Write → ℕ
accepted s [] = 0
accepted s (w ∷ ws) =
    let rest = accepted (update s w.copy w.fresh).1 ws in
    if succeeded (update s w.copy w.fresh).0 then suc rest else rest

-- The writes are of copies of one user that were read with one stamp.
abbrev pub FromOneRead : Text → Text → List Write → Type 0
FromOneRead id stamp [] = Unit
FromOneRead id stamp (w ∷ ws) =
    ((w.copy.id ≡ id) × (w.copy.concurrency_stamp ≡ stamp) × (w.fresh ≢ stamp))
    × FromOneRead id stamp ws

module _ (s : Store) (u : User) (fresh : Text) where
  pub update_missing : Dict.get s.users u.id ≡ none → update s u fresh ≡ (err not_found, s)
  unfolding update
  update_missing e = ground arith

  pub update_stale :
      (cur : User)
      → Dict.get s.users u.id ≡ some cur
      → (cur.concurrency_stamp == u.concurrency_stamp) ≡ false
      → update s u fresh ≡ (err concurrency_failure, s)
  unfolding update
  update_stale cur e n = ground arith

  pub update_current :
      (cur : User)
      → Dict.get s.users u.id ≡ some cur
      → (cur.concurrency_stamp == u.concurrency_stamp) ≡ true
      → update s u fresh ≡ (
        ok (record u { concurrency_stamp = fresh }),
        record s { users = Dict.put s.users u.id (record u { concurrency_stamp = fresh }) },
      )
  unfolding update
  update_current cur e y = ground arith

-- The row has another stamp than the copies.
abbrev Moved : Store → Text → Text → Type 0
Moved s id stamp = (x : User) → Dict.get s.users id ≡ some x → x.concurrency_stamp ≢ stamp

none_accepted :
    (s : Store) (id stamp : Text) (ws : List Write)
    → FromOneRead id stamp ws
    → Moved s id stamp
    → accepted s ws ≡ 0
unfolding accepted
none_accepted s id stamp [] f m = refl
none_accepted s id stamp (w ∷ ws) f m = elim (Option-cases (Dict.get s.users w.copy.id)) [
  | inl e ↦ rw (update_missing s w.copy w.fresh e) (none_accepted s id stamp ws f.1 m)
  | inr (x, e) ↦
      rw (update_stale s w.copy w.fresh x e (is_stale x e)) (none_accepted s id stamp ws f.1 m)
]
  where
    is_stale :
        (x : User)
        → Dict.get s.users w.copy.id ≡ some x
        → (x.concurrency_stamp == w.copy.concurrency_stamp) ≡ false
    is_stale x e =
        ground (arith, text_beq_iff x.concurrency_stamp w.copy.concurrency_stamp, m x, f.0.0, f.0.1)

-- Of any number of writes of copies of one user that were read with one stamp, at most one is
-- accepted, if no write draws that stamp again.
pub one_write_wins :
    (s : Store) (id stamp : Text) (ws : List Write) → FromOneRead id stamp ws → accepted s ws ≤ 1
unfolding accepted
one_write_wins s id stamp [] f = omega arith
one_write_wins s id stamp (w ∷ ws) f = elim (Option-cases (Dict.get s.users w.copy.id)) [
  | inl e ↦ rw (update_missing s w.copy w.fresh e) (one_write_wins s id stamp ws f.1)
  | inr (x, e) ↦ elim (Bool-cases (x.concurrency_stamp == w.copy.concurrency_stamp)) [
    | inr n ↦ rw (update_stale s w.copy w.fresh x e n) (one_write_wins s id stamp ws f.1)
    | inl y ↦
        rw (update_current s w.copy w.fresh x e y)
          (omega (arith, none_accepted _ id stamp ws f.1 moved))
  ]
]
  where
    moved :
        (x : User)
        → Dict.get (Dict.put s.users w.copy.id (record (w.copy) { concurrency_stamp = w.fresh })) id
          ≡ some x
        → x.concurrency_stamp ≢ stamp
    moved x h q = ground (
      arith,
      get-put s.users w.copy.id id (record (w.copy) { concurrency_stamp = w.fresh }),
      text_beq_iff w.copy.id id,
      f.0.0,
      f.0.2,
    )
