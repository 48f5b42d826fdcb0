-- ===== src/Identity/Action.antt =====
-- Steps of a manager that may fail. What is written before an error stays written.
pub mod Inversion
use go_idento.Prelude.{ℕ, Bool, true, false, Text}
use go_idento.Identity.Errors.{IdentityError, Result, ok, err}
use go_idento.Identity.World.{Env, World, now, fresh}
use go_idento.MemStore.State.{Store}

abbrev pub Action : Type 0 → Type 0
Action A = World → Result A × World

abbrev pub andthen : {A B : Type 0} → Result A × World → (A → Action B) → Result B × World
andthen (err e, w) next = (err e, w)
andthen (ok a, w) next = next a w

infixl 5 ◌>>=◌
abbrev pub ◌>>=◌ : {A B : Type 0} → Action A → (A → Action B) → Action B
◌>>=◌ first next w = andthen (first w) next

infixl 5 ◌>>◌
abbrev pub ◌>>◌ : {B : Type 0} → Action (Unit {0}) → Action B → Action B
first >> second = first >>= λ _. second

abbrev pub pure : {A : Type 0} → A → Action A
pure a w = (ok a, w)

abbrev pub raise : {A : Type 0} → IdentityError → Action A
raise e w = (err e, w)

abbrev pub require : Bool → IdentityError → Action (Unit {0})
require true e = pure tt
require false e = raise e

abbrev pub read_clock : Env → Action ℕ
read_clock env w = (ok (now env w).0, (now env w).1)

abbrev pub draw : Env → Action Text
draw env w = (ok (fresh env w).0, (fresh env w).1)

-- A read of the store.
abbrev pub reads : {A : Type 0} → (Store → Result A) → Action A
reads f w = (f w.store, w)

-- A write that cannot fail.
abbrev pub writes : (Store → Store) → Action (Unit {0})
writes f w = (ok tt, record w { store = f w.store })

-- A write that may fail.
abbrev pub attempts : {A : Type 0} → (Store → Result A × Store) → Action A
attempts f w = ((f w.store).0, record w { store = (f w.store).1 })
