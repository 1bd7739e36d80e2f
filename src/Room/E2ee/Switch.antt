-- ===== src/Room/E2ee/Switch.antt =====
-- e2ee/manager.rs: the manager's switch and those of its frame cryptors.
use livekit_rust.Base.{
  ◌≡◌, refl, Bool, true, false, not, ◌&&◌, List, [], ◌∷◌, map, some, String, arith, inl, inr,
  Option-cases,
}
use livekit_rust.Base.Outcome.{ok}
use livekit_rust.Proto.{EncryptionType}
use livekit_rust.Room.E2ee.{
  E2eeOptions, FrameCryptor, Key, Cryptors, insert, remove, E2eeManager, new, set_enabled, on_track,
  remove_frame_cryptor, is_enabled, initialized, switch, setup_cryptor,
}

abbrev pub all_switched : Bool → Cryptors → Bool
all_switched b [] = true
all_switched true ((k, c) ∷ m) = c.enabled && all_switched true m
all_switched false ((k, c) ∷ m) = not c.enabled && all_switched false m

-- What the room asks of the manager for one track.
pub data Track : Type 0 where
  comes : EncryptionType → (identity sid : String) → Track
  goes : (identity sid : String) → Track

-- A track that comes has its transceiver.
unfoldable pub track : Track → E2eeManager → E2eeManager
track (comes e identity sid) m = elim (on_track true e identity sid m) [ ok u ↦ u | _ ↦ m ]
track (goes identity sid) m = remove_frame_cryptor identity sid m

unfoldable pub tracks : List Track → E2eeManager → E2eeManager
unfolding track
tracks [] m = m
tracks (t ∷ ts) m = tracks ts (track t m)

insert-switched :
    (k : Key) (c : FrameCryptor) (b : Bool) (m : Cryptors)
    → c.enabled ≡ b
    → all_switched b m ≡ true
    → all_switched b (insert k c m) ≡ true
unfolding insert
insert-switched k c true [] own h = ground arith
insert-switched k c false [] own h = ground arith
insert-switched k c true ((j, d) ∷ m) own h = ground (arith, insert-switched k c true m)
insert-switched k c false ((j, d) ∷ m) own h = ground (arith, insert-switched k c false m)

remove-switched :
    (k : Key) (b : Bool) (m : Cryptors)
    → all_switched b m ≡ true
    → all_switched b (remove k m) ≡ true
unfolding remove
remove-switched k b [] h = refl
remove-switched k true ((j, d) ∷ m) h = ground (arith, remove-switched k true m)
remove-switched k false ((j, d) ∷ m) h = ground (arith, remove-switched k false m)

map-switched : (b : Bool) (m : Cryptors) → all_switched b (map (switch b) m) ≡ true
map-switched b [] = refl
map-switched true ((k, c) ∷ m) = map-switched true m
map-switched false ((k, c) ∷ m) = map-switched false m

track-switched :
    (t : Track) (m : E2eeManager)
    → all_switched m.enabled m.frame_cryptors ≡ true
    → ((track t m).enabled ≡ m.enabled)
      × (all_switched m.enabled (track t m).frame_cryptors ≡ true)
      × ((track t m).options ≡ m.options)
unfolding track on_track remove_frame_cryptor
track-switched (comes e identity sid) m h = elim (Option-cases m.options) [
  | inl without ↦ ground (arith, without)
  | inr (o, given) ↦ ground (
    arith,
    given,
    insert-switched (identity, sid) (setup_cryptor identity o m) m.enabled m.frame_cryptors refl h,
  )
]
track-switched (goes identity sid) m h =
    (refl, remove-switched (identity, sid) m.enabled m.frame_cryptors h, refl)

tracks-switched :
    (ts : List Track) (m : E2eeManager)
    → all_switched m.enabled m.frame_cryptors ≡ true
    → ((tracks ts m).enabled ≡ m.enabled)
      × (all_switched m.enabled (tracks ts m).frame_cryptors ≡ true)
      × ((tracks ts m).options ≡ m.options)
unfolding tracks
tracks-switched [] m h = (refl, h, refl)
tracks-switched (t ∷ ts) m h = ground (arith, track-switched t m h, tracks-switched ts (track t m))

-- With encryption, whatever tracks come and go, encrypted or not, the manager is enabled and so is
-- every frame cryptor.
pub tracks_are_encrypted :
    (o : E2eeOptions) (ts : List Track)
    → let m = tracks ts (new (some o)) in
      (is_enabled m ≡ true) × (all_switched true m.frame_cryptors ≡ true)
unfolding new is_enabled initialized
tracks_are_encrypted o ts = ground (arith, tracks-switched ts (new (some o)) refl)

-- Encryption that was switched off cannot be switched on again: after any tracks, switching off
-- disables every frame cryptor, but the manager still says that it is enabled, and so switching on
-- changes nothing.
pub switched_off_for_good :
    (o : E2eeOptions) (ts : List Track)
    → let m = set_enabled false (tracks ts (new (some o))) in
      (all_switched false m.frame_cryptors ≡ true)
      × (is_enabled m ≡ true)
      × (set_enabled true m ≡ m)
unfolding new is_enabled initialized set_enabled
switched_off_for_good o ts =
    let m = tracks ts (new (some o)) in
    ground (arith, tracks-switched ts (new (some o)) refl, map-switched false m.frame_cryptors)
