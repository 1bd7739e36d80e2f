-- ===== src/Engine/Codecs.antt =====
-- livekit/src/rtc_engine/rtc_session.rs: the order of the codecs of a video track (`create_sender`).
-- A codec is known by its lower-cased MIME type, its format line and a number of its own;
-- `contains_profile` is the search for `profile-level-id=42e01f`.
mod Preferences
mod Examples
use livekit_rust.Base.{
  ℕ, Bool, true, false, List, [], ◌∷◌, ◌++◌, Option, none, some, String, ◌==◌, if◌then◌else◌,
}

pub record Codec : Type 0 where
  pub mime_type : String
  pub sdp_fmtp_line : Option String
  pub number : ℕ

-- The three vectors of the loop.
pub record Sorted : Type 0 where
  pub matched : List Codec
  pub partial_matched : List Codec
  pub unmatched : List Codec

module _ (contains_profile : String → Bool) (wanted : String) where
  -- The body for a codec of the wanted type.
  sort_wanted : Codec → Option String → Sorted → Sorted
  sort_wanted c none s = record s { partial_matched = s.partial_matched ++ c ∷ [] }
  sort_wanted c (some line) s =
      if contains_profile line
      then record s { matched = s.matched ++ c ∷ [] }
      else record s { partial_matched = s.partial_matched ++ c ∷ [] }

  sort_codec : Codec → Sorted → Sorted
  unfolding sort_wanted
  sort_codec c s =
      if c.mime_type == wanted
      then sort_wanted c c.sdp_fmtp_line s
      else record s { unmatched = s.unmatched ++ c ∷ [] }

  sort_codecs : List Codec → Sorted → Sorted
  unfolding sort_codec
  sort_codecs [] s = s
  sort_codecs (c ∷ cs) s = sort_codecs cs (sort_codec c s)

  -- What `set_codec_preferences` is given for these capabilities.
  unfoldable pub codec_preferences : List Codec → List Codec
  unfolding sort_codecs
  codec_preferences capabilities =
      let s =
        sort_codecs capabilities (record { matched = []; partial_matched = []; unmatched = [] }) in
      s.matched ++ s.partial_matched ++ s.unmatched
