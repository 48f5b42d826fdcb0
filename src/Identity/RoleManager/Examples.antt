-- ===== src/Identity/RoleManager/Examples.antt =====
-- A run of identity/role_manager.go: the first role is created.
use go_idento.Prelude.{◌+◌, ◌≡◌, true, false, none, [], ◌∷◌, arith, ◌==◌, Text, text_eq, codes}
use go_idento.Dict
use go_idento.Dict.{get-empty}
use go_idento.Identity.Entities.{Role}
use go_idento.Identity.World.{Env, World}
use go_idento.MemStore.State.{new}
use go_idento.Identity.RoleManager.Directory.{Names, Represents}
use go_idento.Identity.RoleManager.Directory.Refinement.{
  Refines, add, apply, permits, changed, id_of, apply-Refines,
}

abbrev env0 : Env
env0 = record {
  random = λ n. b'r' ∷ n ∷ [];
  clock = λ n. n + 1000;
  normalize = λ t. t;
  hash = λ _ t. t;
  verify = λ h t. (h == t, false);
  runes = λ t. t;
  trim_space = λ t. t;
  is_digit = λ _. false;
  is_upper = λ _. false;
  is_lower = λ _. false;
  is_letter = λ _. true;
}

abbrev admin : Role
admin = record { id = []; name = codes "admin"; normalized_name = []; concurrency_stamp = [] }

abbrev world0 : World
world0 = record { store = new; draws = 0; reads = 0 }

abbrev nobody : Names
nobody n = none

no_role : (id : Text) → Dict.get (Dict.empty {K = Text} {V = Role}) id ≡ none
no_role id = get-empty id

represented : Represents new nobody
represented = (
  λ n id. (λ h. absurd (ground (arith, h)), λ (r, at, e). absurd (ground (arith, at, no_role id))),
  λ id r at. absurd (ground (arith, at, no_role id)),
)

apply-Refines_example :
    Refines
      (permits env0 nobody (add admin))
      nobody
      (changed env0 nobody (id_of env0 (add admin) world0) (add admin))
      (apply env0 (add admin) world0)
apply-Refines_example = apply-Refines env0 (add admin) world0 nobody represented
