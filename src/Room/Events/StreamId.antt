-- ===== src/Room/Events/StreamId.antt =====
-- room/mod.rs: the stream identifiers of media tracks.
use Prim.Native.Char.{code}
use livekit_rust.Base.{◌≡◌, refl, false, [], ◌∷◌, some, String, nat_eq}
use livekit_rust.Room.Events.{split_bar, unpack_stream_id}

-- `a` and `b` with a bar between them.
pub join_bar : String → String → String
join_bar String.[] b = String.◌∷◌ "|" b
join_bar (String.◌∷◌ c a) b = String.◌∷◌ c (join_bar a b)

abbrev pub NoBar : String → Type 0
NoBar String.[] = Unit
NoBar (String.◌∷◌ c s) = (nat_eq (code c) b'|' ≡ false) × NoBar s

split-whole : (s : String) → NoBar s → split_bar s ≡ s ∷ []
unfolding split_bar
split-whole String.[] h = refl
split-whole (String.◌∷◌ c s) h = rw (h.0, split-whole s h.1)

split-join : (a b : String) → NoBar a → NoBar b → split_bar (join_bar a b) ≡ a ∷ b ∷ []
unfolding split_bar join_bar
split-join String.[] b ha hb = rw (split-whole b hb)
split-join (String.◌∷◌ c a) b ha hb = rw (ha.0, split-join a b ha.1 hb)

-- A stream identifier of two parts, neither with a bar in it, is taken apart into them.
pub unpack-join : (a b : String) → NoBar a → NoBar b → unpack_stream_id (join_bar a b) ≡ some (a, b)
unfolding unpack_stream_id
unpack-join a b ha hb = rw (split-join a b ha hb)
