-- ===== src/Identity/World.antt =====
-- What the managers act on: the in-memory store, and how far the clock and the random source were
-- read. What package identity takes from elsewhere is a parameter.
pub mod Persist
use go_idento.Prelude.{ℕ, suc, ◌≡◌, Bool, List, Text}
use go_idento.Identity.Errors.{Result, ok, err}
use go_idento.Identity.Entities.{User}
use go_idento.MemStore.State.{Store}
use go_idento.MemStore.Users.{update}

pub record Env : Type 0 where
  -- The n-th value of crypto/rand in the encoding of its reader, or of uuid.NewString.
  pub random : ℕ → Text
  -- The n-th reading of time.Now.
  pub clock : ℕ → ℕ
  -- Normalizer, an interface.
  pub normalize : Text → Text
  -- PasswordHasher, an interface: the salt is the n-th random value.
  pub hash : ℕ → Text → Text
  pub verify : Text → Text → Bool × Bool
  -- The runes of a text, and the classes of package unicode.
  pub runes : Text → List ℕ
  pub trim_space : Text → Text
  pub is_digit : ℕ → Bool
  pub is_upper : ℕ → Bool
  pub is_lower : ℕ → Bool
  pub is_letter : ℕ → Bool

pub record World : Type 0 where
  pub store : Store
  pub draws : ℕ
  pub reads : ℕ

-- A reading of the clock.
unfoldable pub now : Env → World → ℕ × World
now env w = (env.clock w.reads, record w { reads = suc w.reads })

-- A fresh random text.
unfoldable pub fresh : Env → World → Text × World
fresh env w = (env.random w.draws, record w { draws = suc w.draws })

abbrev updated : World → User → Result User × Store → (Result (Unit {0}) × User) × World
updated w u (ok u', s) = ((ok tt, u'), record w { store = s; draws = suc w.draws })
updated w u (err e, s) = ((err e, u), record w { store = s })

-- m.Store.Update(ctx, u): the user comes back with its new stamp.
unfoldable pub persist : Env → User → World → (Result (Unit {0}) × User) × World
persist env u w = updated w u (update w.store u (env.random w.draws))
