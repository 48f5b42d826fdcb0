-- ===== src/Identity/RoleManager/Directory.antt =====
-- identity/role_manager.go: the roles as a directory of names.
pub mod Refinement
use go_idento.Prelude.{
  ◌≡◌, ◌≢◌, ◌↔◌, refl, ◌∙◌, sym, ap, inl, inr, ◌⊎◌, Bool, true, false, not, Option, none, some,
  List, [], ◌∷◌, arith, ◌==◌, if◌then◌else◌, Text, text_eq, text_beq_iff, Bool-cases, Option-cases,
  In,
}
use go_idento.Dict
use go_idento.Dict.{get-put, get-remove, In-select, select-In}
use go_idento.Identity.Errors.{Result, ok, err, not_found, Result-cases, duplicate_role_name}
use go_idento.Identity.Entities.{Role}
use go_idento.Identity.World.{Env, World}
use go_idento.MemStore.State.{Store}
use go_idento.MemStore.Roles as Roles
use go_idento.Identity.RoleManager.{
  is_taken, is_taken_by_other, written, create_prepared, update_named, delete,
}

-- Which role has a name.
abbrev pub Names : Type 0
Names = Text → Option Text

-- The role of the id has the name from now on, and no other name.
unfoldable pub bind : Names → Text → Text → Names
bind d id n m =
    if m == n
    then some id
    else (elim (d m) [ none ↦ none | some j ↦ if j == id then none else some j ])

-- The role of the id has no name.
unfoldable pub unbind : Names → Text → Names
unbind d id m = elim (d m) [ none ↦ none | some j ↦ if j == id then none else some j ]

-- A role with the name is stored under the id.
abbrev pub Named : Store → Text → Text → Type 0
Named s n id = (r : Role) × (Dict.get s.roles id ≡ some r) × (r.normalized_name ≡ n)

-- The store holds the names of the directory, and each role at its id. A name has one role, since a
-- directory is a function.
abbrev pub Represents : Store → Names → Type 0
Represents s d =
    ((n id : Text) → (d n ≡ some id) ↔ Named s n id)
    × ((id : Text) (r : Role) → Dict.get s.roles id ≡ some r → r.id ≡ id)

abbrev pub FoundRole : Store → Text → Result Role → Type 0
FoundRole s n (ok r) = (id : Text) × (Dict.get s.roles id ≡ some r) × (r.normalized_name ≡ n)
FoundRole s n (err e) =
    (id : Text) (r : Role) → Dict.get s.roles id ≡ some r → r.normalized_name ≢ n

pub find_by_name-FoundRole : (s : Store) (n : Text) → FoundRole s n (Roles.find_by_name s n)
unfolding Roles.find_by_name
find_by_name-FoundRole s n =
    first (Dict.select s.roles p) (λ k r i. select-In s.roles p k r i)
      (λ id r at e. In-select s.roles p id r at ((text_beq_iff r.normalized_name n).1 e))
  where
    p : Text → Role → Bool
    p k r = r.normalized_name == n

    first :
        (m : List (Text × Role))
        → ((k : Text) (r : Role) → In (k, r) m → (Dict.get s.roles k ≡ some r) × (p k r ≡ true))
        → ((id : Text) (r : Role)
            → Dict.get s.roles id ≡ some r
            → r.normalized_name ≡ n
            → In (id, r) m)
        → FoundRole s n (Roles.first_role m)
    first [] sound complete = λ id r at e. complete id r at e
    first ((k, r) ∷ m) sound complete =
        let (at, e) = sound k r (inl refl) in (k, at, (text_beq_iff r.normalized_name n).0 e)

-- Where a name differs from the new one, the binding removes the id.
unbind-some :
    (d : Names) (id m j : Text) → (unbind d id m ≡ some j) ↔ ((d m ≡ some j) × ((j == id) ≡ false))
unfolding unbind
unbind-some d id m j = elim (Option-cases (d m)) [
  | inl e ↦ rw e (ground arith)
  | inr (i, e) ↦ rw e (ground (arith, text_beq_iff i id, text_beq_iff j id))
]

bind-other : (d : Names) (id n m : Text) → (m == n) ≡ false → bind d id n m ≡ unbind d id m
unfolding bind unbind
bind-other d id n m e = rw e refl

bind-same : (d : Names) (id n m : Text) → (m == n) ≡ true → bind d id n m ≡ some id
unfolding bind
bind-same d id n m e = rw e refl

module _ (s : Store) (d : Names) (rep : Represents s d) where
  abbrev pub with_role : Text → Role → Store
  with_role id r = record s { roles = Dict.put s.roles id r }

  put-Named :
      (id : Text) (r : Role) (m j : Text)
      → Named (with_role id r) m j
      → ((j ≡ id) × (m ≡ r.normalized_name)) ⊎ (Named s m j × ((j == id) ≡ false))
  put-Named id r m j (x, at, e) = elim (Bool-cases (id == j)) [
    | inl same ↦
        let here : r ≡ x = ground (arith, rw (get-put s.roles id j r) at at, same) in
        inl (sym ((text_beq_iff id j).0 same), rw here (sym e))
    | inr other ↦ inr (
      (x, ground (arith, rw (get-put s.roles id j r) at at, other), e),
      ground (arith, other, text_beq_iff id j, text_beq_iff j id),
    )
  ]

  Named-put :
      (id : Text) (r : Role) (m j : Text)
      → Named s m j
      → (j == id) ≡ false
      → Named (with_role id r) m j
  Named-put id r m j (x, at, e) other = (
    x,
    ground (arith, get-put s.roles id j r, at, other, text_beq_iff id j, text_beq_iff j id),
    e,
  )

  -- A role that takes a free name, or keeps its own.
  pub put-Represents :
      (id : Text) (r : Role)
      → r.id ≡ id
      → ((j : Text) → d r.normalized_name ≡ some j → j ≡ id)
      → Represents (with_role id r) (bind d id r.normalized_name)
  put-Represents id r keyed free = (names, keys)
    where
      names : (m j : Text) → (bind d id r.normalized_name m ≡ some j) ↔ Named (with_role id r) m j
      names m j = elim (Bool-cases (m == r.normalized_name)) [
        | inl same ↦ rw (bind-same d id r.normalized_name m same) (
            let e : m ≡ r.normalized_name = (text_beq_iff m r.normalized_name).0 same in
            (
              λ h. (r, ground (arith, h, get-put s.roles id j r, text_beq_iff id j), sym e),
              λ named. elim (put-Named id r m j named) [
                | inl (mine, _) ↦ ap some (sym mine)
                | inr (old, ne) ↦
                    absurd
                      (ground (arith, ne, text_beq_iff j id, free j (rw (← e) ((rep.0 m j).1 old))))
              ],
            ))
        | inr other ↦ rw (bind-other d id r.normalized_name m other) (
          λ h. let (a, ne) = (unbind-some d id m j).0 h in Named-put id r m j ((rep.0 m j).0 a) ne,
          λ named. elim (put-Named id r m j named) [
            | inl (_, e) ↦ absurd (ground (arith, other, e, text_beq_iff m r.normalized_name))
            | inr (old, ne) ↦ (unbind-some d id m j).1 ((rep.0 m j).1 old, ne)
          ],
        )
      ]

      keys : (j : Text) (x : Role) → Dict.get (Dict.put s.roles id r) j ≡ some x → x.id ≡ j
      keys j x at = elim (Bool-cases (id == j)) [
        | inl same ↦
            let here : r ≡ x = ground (arith, rw (get-put s.roles id j r) at at, same) in
            rw (← here) (keyed ∙ (text_beq_iff id j).0 same)
        | inr other ↦ rep.1 j x (ground (arith, rw (get-put s.roles id j r) at at, other))
      ]

  abbrev pub without_role : Text → Store
  without_role id = record s { roles = Dict.remove s.roles id }

  kept_role :
      (id j : Text)
      → (x : Role)
      → (Dict.get (Dict.remove s.roles id) j ≡ some x)
        ↔ ((Dict.get s.roles j ≡ some x) × ((j == id) ≡ false))
  kept_role id j x = ground (arith, get-remove s.roles id j, text_beq_iff id j, text_beq_iff j id)

  pub remove-Represents : (id : Text) → Represents (without_role id) (unbind d id)
  remove-Represents id = (
    λ m j. (
      λ h.
          let (a, ne) = (unbind-some d id m j).0 h in
          let (x, at, e) = (rep.0 m j).0 a in (x, (kept_role id j x).1 (at, ne), e),
      λ (x, at, e).
          let (old, ne) = (kept_role id j x).0 at in
          (unbind-some d id m j).1 ((rep.0 m j).1 (x, old, e), ne),
    ),
    λ j x at. rep.1 j x ((kept_role id j x).0 at).0,
  )
