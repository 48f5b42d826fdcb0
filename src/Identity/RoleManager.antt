-- ===== src/Identity/RoleManager.antt =====
-- identity/role_manager.go, over the in-memory store. A method that writes to the role it is given
-- returns the role, also with an error.
pub mod Directory
mod Examples
use go_idento.Prelude.{suc, Bool, true, false, not, List, [], ◌==◌, if◌then◌else◌, Text, text_eq}
use go_idento.Identity.Errors.{Result, ok, err, duplicate_role_name}
use go_idento.Identity.Entities.{Role, Claim}
use go_idento.Identity.World.{Env, World, fresh}
use go_idento.MemStore.State.{Store}
use go_idento.MemStore.Roles as Roles

abbrev pub RoleOutcome : Type 0
RoleOutcome = (Result (Unit {0}) × Role) × World

-- The lookup found a role, or one with another id.
abbrev pub is_taken : Result Role → Bool
is_taken (ok x) = true
is_taken (err e) = false

abbrev pub is_taken_by_other : Text → Result Role → Bool
is_taken_by_other id (ok x) = not (x.id == id)
is_taken_by_other id (err e) = false

abbrev pub written : World → Role → Result Role × Store → RoleOutcome
written w r (ok r', s) = ((ok tt, r'), record w { store = s; draws = suc w.draws })
written w r (err e, s) = ((err e, r), record w { store = s })

module _ (env : Env) where
  -- The role with an id, its normalized name and a stamp.
  unfoldable pub prepare_role : Role → World → Role × World
  prepare_role r w =
      let (v, w1) : Role × World =
        if r.id == [] then (record r { id = (fresh env w).0 }, (fresh env w).1) else (r, w) in
      let (stamp, w2) = fresh env w1 in
      (record v { normalized_name = env.normalize r.name; concurrency_stamp = stamp }, w2)

  unfoldable pub create_prepared : Role → World → RoleOutcome
  create_prepared r w =
      if is_taken (Roles.find_by_name w.store r.normalized_name)
      then ((err duplicate_role_name, r), w)
      else ((ok tt, r), record w { store = Roles.create w.store r })

  unfoldable pub create : Role → World → RoleOutcome
  create r w = let (v, w') = prepare_role r w in create_prepared v w'

  unfoldable pub update_named : Role → World → RoleOutcome
  update_named r w =
      if is_taken_by_other r.id (Roles.find_by_name w.store r.normalized_name)
      then ((err duplicate_role_name, r), w)
      else written w r (Roles.update w.store r (env.random w.draws))

  unfoldable pub update : Role → World → RoleOutcome
  update r w = update_named (record r { normalized_name = env.normalize r.name }) w

  unfoldable pub find_by_name : Text → World → Result Role
  find_by_name name w = Roles.find_by_name w.store (env.normalize name)

  unfoldable pub role_exists : Text → World → Bool
  role_exists name w = is_taken (find_by_name name w)

unfoldable pub delete : Role → World → World
delete r w = record w { store = Roles.delete w.store r }

-- ReplaceClaim
unfoldable pub replace_claim : Role → Claim → Claim → World → World
replace_claim r old replacement w = record w {
  store = Roles.add_claim (Roles.remove_claim w.store r old) r replacement;
}
