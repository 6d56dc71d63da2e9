-- ===== src/Tests/LockServer.antt =====
-- The handlers of cmd/lock-rpc-server.go on one resource and three clients.
use minio.Base.{◌≡◌, refl, true, false, [], ◌∷◌}
use minio.Base.Text.{Text, codes, text_discrete, ne_of_same}
use minio.Base.Assoc.{get, put, remove}
use minio.LockServer.{
  LockArgs, LockMap, LockError, reply, error, no_such_uid, dispatch, requester, lock, unlock,
  r_lock, r_unlock, handle, lock_call, force_unlock_call, expired_call, unlock_call, is_write_lock,
  lock_maintenance,
}
use minio.LockServer.Exclusion.{IsLegalMap}
use minio.LockServer.Handlers.{Holds, handle-frame, unlock_holder}
use minio.LockServer.Maintenance.{here, next, handles, mutual_exclusion}

program : Unit {0}
unfolding get put remove text_discrete handle dispatch is_write_lock lock_maintenance lock r_lock
    unlock r_unlock
program = tt

abbrev client : Text → LockArgs
client uid = record {
  resource = codes "b/o";
  uid = uid;
  server_addr = codes "n1";
  service_endpoint = codes "/p";
}

abbrev one : LockArgs
one = client (codes "u1")

abbrev two : LockArgs
two = client (codes "u2")

abbrev read : LockMap
read = (codes "b/o", requester false one 5 ∷ []) ∷ []

abbrev held : LockMap
held = (codes "b/o", requester true one 5 ∷ []) ∷ []

locks : handle true lock_call [] one 5 ≡ (held, reply true)
unfolding program
locks = refl

refuses : handle true lock_call held two 6 ≡ (held, reply false)
unfolding program
refuses = refl

foreign : handle true unlock_call held two 6 ≡ (held, error no_such_uid)
unfolding program
foreign = refl

forced : handle true force_unlock_call held (client []) 6 ≡ ([], reply true)
unfolding program
forced = refl

live : handle true expired_call held one 6 ≡ (held, reply false)
unfolding program
live = refl

-- An entry that its origin calls expired is purged after the interval, and not before.
purged : lock_maintenance (λ _. true) held 120 200 ≡ []
unfolding program
purged = refl

too_young : lock_maintenance (λ _. true) held 120 100 ≡ held
unfolding program
too_young = refl

handle-frame_example :
    get text_discrete (codes "b/p") (handle true lock_call held two 6).0
    ≡ get text_discrete (codes "b/p") held
unfolding text_discrete
handle-frame_example =
    handle-frame held (codes "b/p") true lock_call two 6
      (ne_of_same (codes "b/o") (codes "b/p") refl)

unlock_holder_example :
    (Holds held one → unlock held one ≡ (remove text_discrete (codes "b/o") held, reply true))
    × (¬ Holds held one → ((e : LockError) × (unlock held one ≡ (held, error e))))
unlock_holder_example = unlock_holder held one

mutual_exclusion_example : IsLegalMap (handle true lock_call [] one 5).0
mutual_exclusion_example = mutual_exclusion (next here (handles [] true lock_call one 5))
