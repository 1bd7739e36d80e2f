-- ===== src/Engine/Codecs/Examples.antt =====
-- livekit/src/rtc_engine/rtc_session.rs: the preferences for H264 among four codecs.
use livekit_rust.Base.{◌≡◌, [], ◌∷◌, some, none, ◌==◌}
use livekit_rust.Engine.Codecs.{Codec, codec_preferences}
use livekit_rust.Engine.Codecs.Preferences.{codec_preferences_lem, rank, of_rank}

abbrev vp8 : Codec
vp8 = record { mime_type = "video/vp8"; sdp_fmtp_line = none; number = 0 }

abbrev main_profile : Codec
main_profile = record { mime_type = "video/h264"; sdp_fmtp_line = some "4d001f"; number = 1 }

abbrev baseline : Codec
baseline = record { mime_type = "video/h264"; sdp_fmtp_line = some "42e01f"; number = 2 }

abbrev rtx : Codec
rtx = record { mime_type = "video/rtx"; sdp_fmtp_line = none; number = 3 }

codec_preferences_lem_example :
    codec_preferences (λ l. l == "42e01f") "video/h264" (vp8 ∷ main_profile ∷ rtx ∷ baseline ∷ [])
    ≡ baseline ∷ main_profile ∷ vp8 ∷ rtx ∷ []
unfolding of_rank rank
codec_preferences_lem_example =
    (codec_preferences_lem (λ l. l == "42e01f") "video/h264"
      (vp8 ∷ main_profile ∷ rtx ∷ baseline ∷ [])).0
