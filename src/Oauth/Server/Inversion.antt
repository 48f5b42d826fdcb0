-- ===== src/Oauth/Server/Inversion.antt =====
-- Actions that succeed succeed at each step.
use go_idento.Prelude.{◌≡◌, refl, Bool, true, false, arith}
use go_idento.Identity.World.{World}
use go_idento.Oauth.Server.{OauthError, Reply, ok, fail, M, continue, guard}

pub continue-ok :
    {A B : Type 0} (r : Reply A × World) (f : A → M B) (b : B) (w' : World)
    → continue r f ≡ (ok b, w')
    → (a : A) × (w1 : World) × (r ≡ (ok a, w1)) × (f a w1 ≡ (ok b, w'))
continue-ok (ok a, w) f b w' h = (a, w, refl, h)
continue-ok (fail e, w) f b w' h = ground arith

pub guard-ok :
    {B : Type 0} (t : Bool) (e : OauthError) (f : Unit {0} → M B) (b : B) (w w' : World)
    → continue (guard t e w) f ≡ (ok b, w')
    → (t ≡ true) × (f tt w ≡ (ok b, w'))
guard-ok true e f b w w' h = (refl, h)
guard-ok false e f b w w' h = ground arith
