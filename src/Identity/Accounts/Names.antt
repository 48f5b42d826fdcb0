-- ===== src/Identity/Accounts/Names.antt =====
-- identity/user_manager.go: user names stay unique.
use go_idento.Prelude.{
  ◌≡◌, refl, inl, inr, ◌⊎◌, false, some, List, [], ◌∷◌, arith, ◌==◌, Text, text_eq, text_beq_iff,
  Bool-cases,
}
use go_idento.Dict
use go_idento.Dict.{get-put, get-remove}
use go_idento.Identity.Errors.{IdentityError, Result, ok, err}
use go_idento.Identity.Entities.{User}
use go_idento.Identity.Options.{Options}
use go_idento.Identity.World.{Env, World, fresh, persist}
use go_idento.Identity.World.Persist.{persist-Cases, stamped}
use go_idento.Identity.Policy.{validate_user_name, validate_password}
use go_idento.Identity.Lockout.{hash_password}
use go_idento.Identity.Accounts.{
  is_found, is_other, with_id, prepared, check_new, prepare_for_create, insert, create, insert_with,
  create_with_password, restamp, set_user_name,
}
use go_idento.MemStore.State.{Store}
use go_idento.MemStore.Users as Users
use go_idento.MemStore.Users.{find_by_name}
use go_idento.MemStore.Lookups.{Finds, OnlyAt, find_by_name-Finds}

-- Each row stands at its own id, and no two rows have one name.
pub record IsSound (s : Store) : Type 0 where
  pub keyed : (k : Text) (x : User) → Dict.get s.users k ≡ some x → x.id ≡ k
  pub unique :
      (j k : Text) (x y : User)
      → Dict.get s.users j ≡ some x
      → Dict.get s.users k ≡ some y
      → x.normalized_user_name ≡ y.normalized_user_name
      → j ≡ k

-- Writing a row whose name is at most its own keeps the names apart.
put-IsSound :
    (s : Store) (u : User)
    → OnlyAt s u.id u.normalized_user_name
    → IsSound s
    → IsSound (record s { users = Dict.put s.users u.id u })
put-IsSound s u only h = record {
  keyed = λ k x e. ground (arith, get-put s.users u.id k u, text_beq_iff u.id k, h.keyed k x);
  unique = λ j k x y ej ek q. ground (
    arith,
    get-put s.users u.id j u,
    get-put s.users u.id k u,
    text_beq_iff u.id j,
    text_beq_iff u.id k,
    h.unique j k x y,
    only j x,
    only k y,
  );
}

missing-OnlyAt :
    (s : Store) (id n : Text) (r : Result User)
    → Finds s (λ u. u.normalized_user_name == n) r
    → is_found r ≡ false
    → OnlyAt s id n
missing-OnlyAt s id n (ok x) f h = ground arith
missing-OnlyAt s id n (err e) (_, f) h =
    λ k x at q. ground (arith, f k x at, text_beq_iff x.normalized_user_name n)

own-OnlyAt :
    (s : Store) (id n : Text) (r : Result User)
    → IsSound s
    → Finds s (λ u. u.normalized_user_name == n) r
    → is_other id r ≡ false
    → OnlyAt s id n
own-OnlyAt s id n (err e) h f o = missing-OnlyAt s id n (err e) f refl
own-OnlyAt s id n (ok u) h (j, at, t) o = λ k x e q. ground (
  arith,
  h.unique k j x u e at,
  h.keyed j u at,
  text_beq_iff u.normalized_user_name n,
  text_beq_iff u.id id,
)

Result-cases : (r : Result (Unit {0})) → (r ≡ ok tt) ⊎ ((e : IdentityError) × (r ≡ err e))
Result-cases (ok tt) = inl refl
Result-cases (err e) = inr (e, refl)

module _ (env : Env) (o : Options) where
  prepared_store : (u : User) (w : World) → (prepared env o u w).1.store ≡ w.store
  unfolding prepared with_id fresh
  prepared_store u w = ground arith

  prepare_store : (u : User) (w : World) → (prepare_for_create env o u w).1.store ≡ w.store
  unfolding prepare_for_create
  prepare_store u w = ground (arith, prepared_store u w)

  -- A user that may be created has a name that no row has.
  prepare_only :
      (u : User) (w : World)
      → (prepare_for_create env o u w).0.0 ≡ ok tt
      → let v = (prepare_for_create env o u w).0.1 in OnlyAt w.store v.id v.normalized_user_name
  unfolding prepare_for_create check_new
  prepare_only u w h =
      let v = (prepare_for_create env o u w).0.1 in
      missing-OnlyAt w.store v.id v.normalized_user_name
        (find_by_name w.store v.normalized_user_name)
        (find_by_name-Finds w.store v.normalized_user_name) (ground (arith, prepared_store u w))

  -- Either nothing is written, or the accepted user, with whatever hash.
  Inserted : User → World → Store → Type 0
  Inserted u w s =
      (s ≡ w.store)
      ⊎ (((prepare_for_create env o u w).0.0 ≡ ok tt)
          × ((h : Text) × (s
                ≡ Users.create w.store
                    (record ((prepare_for_create env o u w).0.1) { password_hash = h }))))

  create-Inserted : (u : User) (w : World) → Inserted u w (create env o u w).1.store
  unfolding create insert Inserted
  create-Inserted u w = elim (Result-cases (prepare_for_create env o u w).0.0) [
    | inl e ↦
        inr
          (e, ((prepare_for_create env o u w).0.1.password_hash, ground (arith, prepare_store u w)))
    | inr (x, e) ↦ inl (ground (arith, prepare_store u w))
  ]

  create_with_password-Inserted :
      (u : User) (pw : Text) (w : World) → Inserted u w (create_with_password env o u pw w).1.store
  unfolding create_with_password insert_with insert Inserted hash_password
  create_with_password-Inserted u pw w = elim (Result-cases (validate_password env o.password pw)) [
    | inr (x, e) ↦ inl (ground arith)
    | inl v ↦ elim (Result-cases (prepare_for_create env o u w).0.0) [
      | inl e ↦ inr (
        e,
        (env.hash (prepare_for_create env o u w).1.draws pw, ground (arith, prepare_store u w)),
      )
      | inr (x, e) ↦ inl (ground (arith, prepare_store u w))
    ]
  ]

  Inserted-IsSound :
      (u : User) (w : World) (s : Store) → Inserted u w s → IsSound w.store → IsSound s
  unfolding Inserted Users.create
  Inserted-IsSound u w s (inl e) h = rw e h
  Inserted-IsSound u w s (inr (k, (t, e))) h = rw e (
      put-IsSound w.store (record ((prepare_for_create env o u w).0.1) { password_hash = t })
        (prepare_only u w k) h)

  persist-IsSound :
      (u : User) (w : World)
      → OnlyAt w.store u.id u.normalized_user_name
      → IsSound w.store
      → IsSound (persist env u w).1.store
  persist-IsSound u w only h = elim (persist-Cases env u w) [
    | inl (_, e) ↦ rw e h
    | inr (inl (_, _, _, e)) ↦ rw e h
    | inr (inr (_, _, _, e)) ↦ rw e (put-IsSound w.store (stamped env u w) only h)
  ]

  set_user_name-IsSound :
      (u : User) (name : Text) (w : World)
      → IsSound w.store
      → IsSound (set_user_name env o u name w).1.store
  unfolding set_user_name restamp fresh
  set_user_name-IsSound u name w h = elim (Result-cases (validate_user_name env o.user name)) [
    | inr (x, e) ↦ rw (e, set_user_name) h
    | inl e ↦ elim (Bool-cases (is_other u.id (find_by_name w.store (env.normalize name)))) [
      | inl taken ↦ rw (e, taken, set_user_name) h
      | inr free ↦
          rw (e, free, set_user_name)
            (persist-IsSound _ _
              (own-OnlyAt w.store u.id (env.normalize name)
                (find_by_name w.store (env.normalize name)) h
                (find_by_name-Finds w.store (env.normalize name)) free)
              h)
    ]
  ]

  delete-IsSound : (s : Store) (u : User) → IsSound s → IsSound (Users.delete s u)
  unfolding Users.delete Users.cascade_delete
  delete-IsSound s u h = record {
    keyed = λ k x e. ground (arith, get-remove s.users u.id k, h.keyed k x);
    unique = λ j k x y ej ek q.
        ground (arith, get-remove s.users u.id j, get-remove s.users u.id k, h.unique j k x y);
  }

  -- Calls of the user manager that add a user, rename one or remove one.
  pub data Account : Type 0 where
    register : User → Account
    register_with : User → Text → Account
    rename : User → Text → Account
    remove : User → Account

  unfoldable pub run : List Account → World → World
  run [] w = w
  run (register u ∷ cs) w = run cs (create env o u w).1
  run (register_with u pw ∷ cs) w = run cs (create_with_password env o u pw w).1
  run (rename u name ∷ cs) w = run cs (set_user_name env o u name w).1
  run (remove u ∷ cs) w = run cs (record w { store = Users.delete w.store u })

  -- Whatever users are created, with or without a password, renamed and deleted, one call after
  -- another, no two stored users have one normalized name, and each row stands at its own id.
  pub run-IsSound : (cs : List Account) (w : World) → IsSound w.store → IsSound (run cs w).store
  unfolding run
  run-IsSound [] w h = h
  run-IsSound (register u ∷ cs) w h =
      run-IsSound cs _ (Inserted-IsSound u w _ (create-Inserted u w) h)
  run-IsSound (register_with u pw ∷ cs) w h =
      run-IsSound cs _ (Inserted-IsSound u w _ (create_with_password-Inserted u pw w) h)
  run-IsSound (rename u name ∷ cs) w h = run-IsSound cs _ (set_user_name-IsSound u name w h)
  run-IsSound (remove u ∷ cs) w h = run-IsSound cs _ (delete-IsSound w.store u h)
