-- ===== src/Oauth/Manage.antt =====
-- oauth/server.go: what a user or a periodic job does to the stored grants, codes and clients.
pub mod Revocation
use go_idento.Prelude.{ℕ, Bool, true, false, List, Text, text_eq, ◌==◌, if◌then◌else◌}
use go_idento.Identity.Errors.{Result, ok, err, not_found}
use go_idento.Identity.World.{World, now}
use go_idento.MemStore.State.{Store}
use go_idento.MemStore.Oauth as Methods
use go_idento.Oauth.Types.{Grant}
use go_idento.Oauth.Server.{Server}

unfoldable pub list_grants : Store → Text → List Grant
list_grants s user_id = Methods.list_user_grants s user_id

unfoldable pub revoke_grant : Store → Text → Text → Result (Unit {0}) × Store
revoke_grant s user_id grant_id = elim (Methods.get_grant s grant_id) [
  | err e ↦ (ok tt, s)
  | ok g ↦
      if g.user_id == user_id then (ok tt, Methods.delete_grant s grant_id) else (err not_found, s)
]

unfoldable pub revoke_client : Store → Text → Text → Store
revoke_client s user_id client_id =
    Methods.delete_consent (Methods.delete_user_client_grants s user_id client_id).1 user_id
      client_id

-- The numbers of codes and of grants that were deleted.
unfoldable pub purge_expired : Server → World → (ℕ × ℕ) × World
purge_expired srv w =
    let (t, w1) = now srv.env w in
    let (codes, s1) = Methods.delete_expired_codes w1.store t in
    let (grants, s2) = Methods.delete_expired_grants s1 t in
    let (jtis, s3) = Methods.delete_expired_client_assertions s2 t in
    ((codes, grants), record w1 { store = s3 })

unfoldable pub purge_stale_clients : Store → ℕ → ℕ × Store
purge_stale_clients s older_than = Methods.delete_stale_clients s older_than
