-- ===== src/Identity/World/Persist.antt =====
-- identity/user_manager.go: the outcomes of `m.Store.Update`.
use go_idento.Prelude.{
  suc, ◌≡◌, ◌⊎◌, inl, inr, true, false, none, some, ◌==◌, text_eq, Option-cases, Bool-cases,
}
use go_idento.Dict
use go_idento.Identity.Errors.{Result, ok, err, not_found, concurrency_failure}
use go_idento.Identity.Entities.{User}
use go_idento.Identity.World.{Env, World, persist}
use go_idento.MemStore.Updates.{update_missing, update_stale, update_current}

abbrev pub stamped : Env → User → World → User
stamped env u w = record u { concurrency_stamp = env.random w.draws }

abbrev pub saved : Env → User → World → World
saved env u w = record w {
  store = record (w.store) { users = Dict.put w.store.users u.id (stamped env u w) };
  draws = suc w.draws;
}

abbrev pub Cases : Env → User → World → (Result (Unit {0}) × User) × World → Type 0
Cases env u w r =
    ((Dict.get w.store.users u.id ≡ none) × (r ≡ ((err not_found, u), w)))
    ⊎ (((cur : User) × (Dict.get w.store.users u.id ≡ some cur)
          × ((cur.concurrency_stamp == u.concurrency_stamp) ≡ false)
          × (r ≡ ((err concurrency_failure, u), w)))
        ⊎ ((cur : User) × (Dict.get w.store.users u.id ≡ some cur)
            × ((cur.concurrency_stamp == u.concurrency_stamp) ≡ true)
            × (r ≡ ((ok tt, stamped env u w), saved env u w))))

pub persist-Cases : (env : Env) (u : User) (w : World) → Cases env u w (persist env u w)
unfolding persist
persist-Cases env u w = elim (Option-cases (Dict.get w.store.users u.id)) [
  | inl e ↦ inl (e, rw (update_missing w.store u (env.random w.draws) e))
  | inr (cur, e) ↦ elim (Bool-cases (cur.concurrency_stamp == u.concurrency_stamp)) [
    | inr n ↦ inr (inl (cur, e, n, rw (update_stale w.store u (env.random w.draws) cur e n)))
    | inl y ↦ inr (inr (cur, e, y, rw (update_current w.store u (env.random w.draws) cur e y)))
  ]
]

-- Where the user in memory is the row of the store, the write succeeds.
pub persist_current :
    (env : Env) (u : User) (w : World) (cur : User)
    → Dict.get w.store.users u.id ≡ some cur
    → (cur.concurrency_stamp == u.concurrency_stamp) ≡ true
    → persist env u w ≡ ((ok tt, stamped env u w), saved env u w)
unfolding persist
persist_current env u w cur e y = rw (update_current w.store u (env.random w.draws) cur e y)

-- The user in memory differs after a write at most by the concurrency stamp.
pub after_persist :
    (env : Env) (u : User) (w : World)
    → ((persist env u w).0.1 ≡ u) ⊎ ((persist env u w).0.1 ≡ stamped env u w)
after_persist env u w = elim (persist-Cases env u w) [
  | inl (_, e) ↦ inl (rw e)
  | inr (inl (_, _, _, e)) ↦ inl (rw e)
  | inr (inr (_, _, _, e)) ↦ inr (rw e)
]
