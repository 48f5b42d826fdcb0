-- ===== src/Identity/RoleManager/Directory/Refinement.antt =====
-- identity/role_manager.go: the manager's requests as changes of the directory of names.
use go_idento.Prelude.{
  ◌≡◌, ◌↔◌, refl, ◌∙◌, sym, ap, subst, inl, inr, Bool, true, false, none, some, [], arith, ◌==◌,
  Text, text_eq, text_beq_iff, Bool-cases, Option-cases,
}
use go_idento.Dict
use go_idento.Identity.Errors.{IdentityError, ok, err, Result-cases, duplicate_role_name}
use go_idento.Identity.Entities.{Role}
use go_idento.Identity.World.{Env, World, fresh}
use go_idento.MemStore.State.{Store}
use go_idento.MemStore.Roles as Roles
use go_idento.Identity.RoleManager.{
  RoleOutcome, written, prepare_role, create_prepared, create, update_named, update, delete,
}
use go_idento.Identity.RoleManager.Directory.{
  Names, bind, unbind, Represents, FoundRole, find_by_name-FoundRole, put-Represents,
  remove-Represents,
}

-- A lookup gives the role that the directory names.
lookup-Represents :
    (s : Store) (d : Names) (n : Text)
    → Represents s d
    → ((r : Role) → Roles.find_by_name s n ≡ ok r → d n ≡ some r.id)
      × ((e : IdentityError) → Roles.find_by_name s n ≡ err e → d n ≡ none)
lookup-Represents s d n rep = (
  λ r h.
      let (id, at, e) = subst (FoundRole s n) h (find_by_name-FoundRole s n) in
      (rep.0 n id).1 (r, at, e) ∙ ap some (sym (rep.1 id r at)),
  λ e h. elim (Option-cases (d n)) [
    | inl none_there ↦ none_there
    | inr (id, there) ↦
        let (r, at, same) = (rep.0 n id).0 there in
        absurd (subst (FoundRole s n) h (find_by_name-FoundRole s n) id r at same)
  ],
)

-- The name is free for a new role, or for the role with the id.
abbrev pub is_free : Names → Text → Bool
is_free d n = elim (d n) [ none ↦ true | some j ↦ false ]

abbrev pub is_free_for : Names → Text → Text → Bool
is_free_for d n id = elim (d n) [ none ↦ true | some j ↦ j == id ]

-- The outcome against the directory: the request goes through or is refused for a name that is taken,
-- as the directory says, and then the store holds the changed directory; an error changes nothing.
abbrev pub Refines : Bool → Names → Names → RoleOutcome → Type 0
Refines allowed before after ((ok _, r), w) = (allowed ≡ true) × Represents w.store after
Refines allowed before after ((err e, r), w) =
    ((e ≡ duplicate_role_name) ↔ (allowed ≡ false)) × Represents w.store before

create_prepared-Refines :
    (env : Env) (r : Role) (w : World) (d : Names)
    → Represents w.store d
    → Refines
        (is_free d r.normalized_name)
        d
        (bind d r.id r.normalized_name)
        (create_prepared env r w)
unfolding create_prepared Roles.create
create_prepared-Refines env r w d rep =
    let (known, unknown) = lookup-Represents w.store d r.normalized_name rep in
    elim (Result-cases (Roles.find_by_name w.store r.normalized_name)) [
      | inl (e, h) ↦
          let free : d r.normalized_name ≡ none = unknown e h in
          rw (h, create_prepared)
            (
              rw (free, is_free) refl,
              put-Represents w.store d rep r.id r refl
                  (λ j named. absurd (ground (arith, free, named))),
            )
      | inr (x, h) ↦ rw (h, create_prepared) ((λ _. rw (known x h, is_free) refl, λ _. refl), rep)
    ]

-- The store's own errors of an update are not that of a name.
written-Refines :
    (r : Role) (w : World) (d : Names) (stamp : Text)
    → Represents w.store d
    → ((j : Text) → d r.normalized_name ≡ some j → j ≡ r.id)
    → Refines true d (bind d r.id r.normalized_name) (written w r (Roles.update w.store r stamp))
unfolding Roles.update
written-Refines r w d stamp rep free = elim (Option-cases (Dict.get w.store.roles r.id)) [
  | inl e ↦ rw (e, Roles.update) ((λ h. ground (arith, h), λ h. ground (arith, h)), rep)
  | inr (cur, e) ↦ elim (Bool-cases (cur.concurrency_stamp == r.concurrency_stamp)) [
    | inl same ↦
        rw (e, Roles.update, same)
          (
            refl,
            put-Represents w.store d rep r.id (record r { concurrency_stamp = stamp }) refl free,
          )
    | inr stale ↦
        rw (e, Roles.update, stale) ((λ h. ground (arith, h), λ h. ground (arith, h)), rep)
  ]
]

update_named-Refines :
    (env : Env) (r : Role) (w : World) (d : Names)
    → Represents w.store d
    → Refines
        (is_free_for d r.normalized_name r.id)
        d
        (bind d r.id r.normalized_name)
        (update_named env r w)
unfolding update_named
update_named-Refines env r w d rep =
    let (known, unknown) = lookup-Represents w.store d r.normalized_name rep in
    elim (Result-cases (Roles.find_by_name w.store r.normalized_name)) [
      | inl (e, h) ↦
          let none_there : d r.normalized_name ≡ none = unknown e h in
          rw (h, update_named, none_there, is_free_for)
            (written-Refines r w d _ rep (λ j named. absurd (ground (arith, none_there, named))))
      | inr (x, h) ↦
          let there : d r.normalized_name ≡ some x.id = known x h in
          elim (Bool-cases (x.id == r.id)) [
            | inl own ↦
                rw (h, update_named, there, is_free_for, own)
                  (written-Refines r w d _ rep
                    (λ j named. ground (arith, there, named, own, text_beq_iff x.id r.id)))
            | inr other ↦
                rw (h, update_named, there, is_free_for, other) ((λ _. refl, λ _. refl), rep)
          ]
    ]

prepare_role-store : (env : Env) (r : Role) (w : World) → (prepare_role env r w).1.store ≡ w.store
unfolding prepare_role fresh
prepare_role-store env r w = elim (Bool-cases (r.id == [])) [
  | inl e ↦ rw e refl
  | inr e ↦ rw e refl
]

prepare_role-name :
    (env : Env) (r : Role) (w : World)
    → (prepare_role env r w).0.normalized_name ≡ env.normalize r.name
unfolding prepare_role fresh
prepare_role-name env r w = refl

-- A request of the manager.
pub data Request : Type 0 where
  add rename remove : Role → Request

unfoldable pub apply : Env → Request → World → RoleOutcome
apply env (add r) w = create env r w
apply env (rename r) w = update env r w
apply env (remove r) w = ((ok tt, r), delete r w)

-- What a directory says of a request, without a store; a new role gets the id that it is given.
abbrev pub permits : Env → Names → Request → Bool
permits env d (add r) = is_free d (env.normalize r.name)
permits env d (rename r) = is_free_for d (env.normalize r.name) r.id
permits env d (remove r) = true

abbrev pub changed : Env → Names → Text → Request → Names
changed env d id (add r) = bind d id (env.normalize r.name)
changed env d id (rename r) = bind d r.id (env.normalize r.name)
changed env d id (remove r) = unbind d r.id

abbrev pub id_of : Env → Request → World → Text
id_of env (add r) w = (prepare_role env r w).0.id
id_of env (rename r) w = r.id
id_of env (remove r) w = r.id

-- The manager over a store refines a directory that maps each name to one id: a request succeeds only
-- if the directory permits it, is refused for a duplicate name exactly if it does not, an update may
-- fail in the store besides, and the store holds the changed directory after a success and the same
-- directory after an error.
pub apply-Refines :
    (env : Env) (q : Request) (w : World) (d : Names)
    → Represents w.store d
    → Refines (permits env d q) d (changed env d (id_of env q w) q) (apply env q w)
unfolding apply create update delete Roles.delete
apply-Refines env (add r) w d rep =
    let v : Role = (prepare_role env r w).0 in
    let w1 : World = (prepare_role env r w).1 in
    subst (λ n. Refines (is_free d n) d (bind d v.id n) (create_prepared env v w1))
      (prepare_role-name env r w)
      (create_prepared-Refines env v w1 d (rw (prepare_role-store env r w) rep))
apply-Refines env (rename r) w d rep =
    update_named-Refines env (record r { normalized_name = env.normalize r.name }) w d rep
apply-Refines env (remove r) w d rep = (refl, remove-Represents w.store d rep r.id)
