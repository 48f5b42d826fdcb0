-- ===== src/Identity/Action/Inversion.antt =====
-- Steps that succeed succeed one by one.
use go_idento.Prelude.{◌≡◌, refl, Bool, true, false, arith}
use go_idento.Identity.Errors.{IdentityError, Result, ok, err}
use go_idento.Identity.World.{World}
use go_idento.Identity.Action.{Action, andthen, require}

pub andthen-ok :
    {A B : Type 0} (m : Result A × World) (next : A → Action B) (b : B) (w' : World)
    → andthen m next ≡ (ok b, w')
    → (a : A) × (v : World) × (m ≡ (ok a, v)) × (next a v ≡ (ok b, w'))
andthen-ok (err e, w) next b w' h = ground arith
andthen-ok (ok a, w) next b w' h = (a, w, refl, h)

pub require-ok :
    {B : Type 0} (t : Bool) (e : IdentityError) (next : Unit {0} → Action B) (b : B) (w w' : World)
    → andthen (require t e w) next ≡ (ok b, w')
    → (t ≡ true) × (next tt w ≡ (ok b, w'))
require-ok false e next b w w' h = ground arith
require-ok true e next b w w' h = (refl, h)
