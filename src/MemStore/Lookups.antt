-- ===== src/MemStore/Lookups.antt =====
-- stores/memstore/memstore.go: what the searches by name and by email find.
use go_idento.Prelude.{
  ◌≡◌, refl, inl, Bool, true, false, not, ◌&&◌, some, List, [], ◌∷◌, arith, ◌==◌, Text, text_eq,
  text_beq_iff,
}
use go_idento.Dict
use go_idento.Dict.{In-select, select-In}
use go_idento.Identity.Errors.{Result, ok, err, not_found}
use go_idento.Identity.Entities.{User}
use go_idento.MemStore.State.{Store}
use go_idento.MemStore.Users.{find_by, find_by_name, find_by_email, first_of_entries}

-- A search answers with a stored user that has the property, or no stored user has it.
abbrev pub Finds : Store → (User → Bool) → Result User → Type 0
Finds s pred (ok u) = (k : Text) × (Dict.get s.users k ≡ some u) × (pred u ≡ true)
Finds s pred (err e) =
    (e ≡ not_found) × ((k : Text) (u : User) → Dict.get s.users k ≡ some u → pred u ≡ false)

first-Finds :
    (s : Store) (pred : User → Bool) (m : List (Text × User))
    → Dict.select s.users (λ _ u. pred u) ≡ m
    → Finds s pred (first_of_entries m)
first-Finds s pred [] e = (refl, λ k u h. ground (arith, In-select s.users (λ _ u. pred u) k u h))
first-Finds s pred ((j, u) ∷ m) e =
    let (h, t) = select-In s.users (λ _ u. pred u) j u (rw e (inl refl)) in (j, h, t)

pub find_by-Finds : (s : Store) (pred : User → Bool) → Finds s pred (find_by s pred)
unfolding find_by
find_by-Finds s pred = first-Finds s pred _ refl

-- The search by name answers with a stored user of that normalized name, or no stored user has it.
pub find_by_name-Finds :
    (s : Store) (n : Text) → Finds s (λ u. u.normalized_user_name == n) (find_by_name s n)
unfolding find_by_name
find_by_name-Finds s n = find_by-Finds s (λ u. u.normalized_user_name == n)

-- No other row has the name.
abbrev pub OnlyAt : Store → Text → Text → Type 0
OnlyAt s id name =
    (k : Text) (x : User) → Dict.get s.users k ≡ some x → x.normalized_user_name ≡ name → k ≡ id

-- Where one row has a name the search finds this row, in whichever order the map is walked.
only_match :
    (s : Store) (id : Text) (u : User) (r : Result User)
    → Dict.get s.users id ≡ some u
    → OnlyAt s id u.normalized_user_name
    → Finds s (λ x. x.normalized_user_name == u.normalized_user_name) r
    → r ≡ ok u
only_match s id u (ok x) e only (k, h, t) =
    ground (arith, only k x h ((text_beq_iff x.normalized_user_name u.normalized_user_name).0 t))
only_match s id u (err x) e only (_, f) =
    ground (arith, f id u e, text_beq_iff u.normalized_user_name u.normalized_user_name)

-- The search by the name of a stored user finds this user, if no other row has the name.
pub find_by_name_only :
    (s : Store) (id : Text) (u : User)
    → Dict.get s.users id ≡ some u
    → OnlyAt s id u.normalized_user_name
    → find_by_name s u.normalized_user_name ≡ ok u
find_by_name_only s id u e only =
    only_match s id u (find_by_name s u.normalized_user_name) e only
      (find_by_name-Finds s u.normalized_user_name)

-- A search by an empty email finds nobody, also where users have no email.
pub find_by_email_empty : (s : Store) → find_by_email s [] ≡ err not_found
unfolding find_by_email
find_by_email_empty s = empty_email (find_by s _) (find_by-Finds s _)
  where
    empty_email :
        (r : Result User)
        → Finds s (λ u. u.normalized_email == [] && not (◌==◌ {A = Text} [] [])) r
        → r ≡ err not_found
    empty_email (ok u) (k, h, t) = ground (arith, text_beq_iff [] [])
    empty_email (err e) (h, _) = ground arith
