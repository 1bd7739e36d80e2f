-- ===== src/Room/E2ee.antt =====
-- livekit/src/room/e2ee/manager.rs: the manager of end-to-end encryption. A frame cryptor belongs to
-- libwebrtc; it is known here by how it was made and by what `set_enabled` told it last. Whether the
-- track has its transceiver yet is an argument, as the code unwraps it.
mod Keys
mod Switch
mod Examples
use livekit_rust.Base.{
  Bool, true, false, not, ◌&&◌, ◌||◌, List, [], ◌∷◌, map, Option, none, some, String, if◌then◌else◌,
  is_some, ◌==◌,
}
use livekit_rust.Base.Outcome.{Outcome, ok, panic}
use livekit_rust.Proto.{EncryptionType, no_encryption}

-- `key_handle` is the key provider's.
pub record E2eeOptions : Type 0 where
  pub encryption_type : EncryptionType
  pub key_handle : String

pub record FrameCryptor : Type 0 where
  pub identity : String
  pub key_handle : String
  pub enabled : Bool

-- A participant's identity and a track's identifier.
abbrev pub Key : Type 0
Key = String × String

abbrev pub same_key : Key → Key → Bool
same_key (i, s) (j, t) = i == j && s == t

abbrev pub Cryptors : Type 0
Cryptors = List (Key × FrameCryptor)

unfoldable pub lookup : Key → Cryptors → Option FrameCryptor
lookup k [] = none
lookup k ((j, c) ∷ m) = if same_key j k then some c else lookup k m

unfoldable pub insert : Key → FrameCryptor → Cryptors → Cryptors
insert k c [] = (k, c) ∷ []
insert k c ((j, d) ∷ m) =
    let rest = insert k c m in if same_key j k then (k, c) ∷ m else (j, d) ∷ rest

unfoldable pub remove : Key → Cryptors → Cryptors
remove k [] = []
remove k ((j, c) ∷ m) = let rest = remove k m in if same_key j k then rest else (j, c) ∷ rest

pub record E2eeManager : Type 0 where
  pub options : Option E2eeOptions
  pub enabled : Bool
  pub frame_cryptors : Cryptors

unfoldable pub new : Option E2eeOptions → E2eeManager
new options = record { options = options; enabled = is_some options; frame_cryptors = [] }

unfoldable pub initialized : E2eeManager → Bool
initialized m = is_some m.options

unfoldable pub is_enabled : E2eeManager → Bool
unfolding initialized
is_enabled m = m.enabled && initialized m

unfoldable pub encryption_type : E2eeManager → EncryptionType
encryption_type m = elim m.options [ none ↦ no_encryption | some o ↦ o.encryption_type ]

abbrev pub switch : Bool → Key × FrameCryptor → Key × FrameCryptor
switch b (k, c) = (k, record c { enabled = b })

-- The field `enabled` is only read here.
unfoldable pub set_enabled : Bool → E2eeManager → E2eeManager
set_enabled true m =
    if m.enabled then m else record m { frame_cryptors = map (switch true) m.frame_cryptors }
set_enabled false m =
    if m.enabled then record m { frame_cryptors = map (switch false) m.frame_cryptors } else m

-- The cryptors that are let go come with the manager.
unfoldable pub cleanup : E2eeManager → Cryptors × E2eeManager
cleanup m = (map (switch false) m.frame_cryptors, record m { frame_cryptors = [] })

abbrev pub setup_cryptor : String → E2eeOptions → E2eeManager → FrameCryptor
setup_cryptor identity o m = record {
  identity = identity;
  key_handle = o.key_handle;
  enabled = m.enabled;
}

abbrev is_plain : EncryptionType → Bool
is_plain no_encryption = true
is_plain _ = false

-- `on_track_subscribed` and `on_local_track_published`, which differ in the transceiver's end.
unfoldable pub on_track :
    (transceiver : Bool) (encryption : EncryptionType) (identity sid : String)
    → E2eeManager
    → Outcome String E2eeManager
on_track transceiver encryption identity sid m = elim m.options [
  | none ↦ ok m
  | some o ↦
      if is_plain encryption
      then ok m
      else if transceiver
      then ok (record m {
        frame_cryptors = insert (identity, sid) (setup_cryptor identity o m) m.frame_cryptors;
      })
      else panic
]

-- `on_track_unsubscribed` and `on_local_track_unpublished`
unfoldable pub remove_frame_cryptor : (identity sid : String) → E2eeManager → E2eeManager
remove_frame_cryptor identity sid m = record m {
  frame_cryptors = remove (identity, sid) m.frame_cryptors;
}
