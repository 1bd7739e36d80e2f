-- ===== src/Room/E2ee/Keys.antt =====
-- e2ee/manager.rs: which tracks have a frame cryptor.
use livekit_rust.Base.{
  ◌≡◌, refl, ◌≢◌, true, [], ◌∷◌, none, some, String, arith, if◌then◌else◌, eq_iff,
}
use livekit_rust.Base.Outcome.{ok}
use livekit_rust.Proto.{EncryptionType, no_encryption}
use livekit_rust.Room.E2ee.{
  E2eeOptions, FrameCryptor, Key, same_key, Cryptors, lookup, insert, remove, E2eeManager, on_track,
  remove_frame_cryptor, setup_cryptor,
}

pub lookup-insert :
    (k j : Key) (c : FrameCryptor) (m : Cryptors)
    → lookup j (insert k c m) ≡ (if same_key k j then some c else lookup j m)
unfolding lookup insert
lookup-insert (i, s) (j, t) c [] = refl
lookup-insert (i, s) (j, t) c (((a, b), d) ∷ m) = ground (
  arith,
  eq_iff i j,
  eq_iff s t,
  eq_iff a i,
  eq_iff b s,
  eq_iff a j,
  eq_iff b t,
  lookup-insert (i, s) (j, t) c m,
)

pub lookup-remove :
    (k j : Key) (m : Cryptors) → lookup j (remove k m) ≡ (if same_key k j then none else lookup j m)
unfolding lookup remove
lookup-remove (i, s) (j, t) [] = ground arith
lookup-remove (i, s) (j, t) (((a, b), d) ∷ m) = ground (
  arith,
  eq_iff i j,
  eq_iff s t,
  eq_iff a i,
  eq_iff b s,
  eq_iff a j,
  eq_iff b t,
  lookup-remove (i, s) (j, t) m,
)

-- A track that is encrypted gets a frame cryptor for its participant's identity, with the key of the
-- options and switched as the manager is; every other track keeps what it had. When the track goes,
-- so does its cryptor, and every other track has again what it had before. Assumed: options, a
-- track that is encrypted, and a transceiver.
pub cryptor_lifetime :
    (e : EncryptionType) (identity sid : String) (m : E2eeManager) (o : E2eeOptions)
    → m.options ≡ some o
    → e ≢ no_encryption
    → (u : E2eeManager) × (on_track true e identity sid m ≡ ok u)
      × ((k : Key)
          → lookup k u.frame_cryptors ≡ (
              if same_key (identity, sid) k
              then some (setup_cryptor identity o m)
              else lookup k m.frame_cryptors))
      × ((k : Key)
          → lookup k (remove_frame_cryptor identity sid u).frame_cryptors
            ≡ (if same_key (identity, sid) k then none else lookup k m.frame_cryptors))
unfolding on_track remove_frame_cryptor
cryptor_lifetime e identity sid m o given encrypted =
    let c = setup_cryptor identity o m in
    (
      record m { frame_cryptors = insert (identity, sid) c m.frame_cryptors },
      ground arith,
      (λ k. lookup-insert (identity, sid) k c m.frame_cryptors),
      (λ k. ground (
        arith,
        lookup-remove (identity, sid) k (insert (identity, sid) c m.frame_cryptors),
        lookup-insert (identity, sid) k c m.frame_cryptors,
      )),
    )
