-- ===== src/Engine/Codecs/Preferences.antt =====
-- livekit/src/rtc_engine/rtc_session.rs: the loop of `create_sender` against a stable sort by rank.
use mathlib.Core.List.{append_assoc, append-nil, Perm, perm_middle}
use mathlib.Core.List.Perm
use livekit_rust.Base.{
  ℕ, zero, suc, ◌≡◌, refl, sym, ap, subst, ◌∙◌, Bool, List, [], ◌∷◌, ◌++◌, Option, none, some,
  String, ◌==◌, if◌then◌else◌, arith, nat_eq, Bool-cases, inl, inr, ◌⊎◌, Option-cases,
}
use livekit_rust.Engine.Codecs.{
  Codec, Sorted, sort_wanted, sort_codec, sort_codecs, codec_preferences,
}

module _ (contains_profile : String → Bool) (wanted : String) where
  -- How much a codec is preferred: 0 before 1 before 2.
  abbrev pub rank_wanted : Option String → ℕ
  rank_wanted none = 1
  rank_wanted (some line) = if contains_profile line then 0 else 1

  unfoldable pub rank : Codec → ℕ
  rank c = if c.mime_type == wanted then rank_wanted c.sdp_fmtp_line else 2

  -- The codecs of a rank, in their order.
  unfoldable pub of_rank : ℕ → List Codec → List Codec
  of_rank k [] = []
  of_rank k (c ∷ cs) = let rest = of_rank k cs in if nat_eq (rank c) k then c ∷ rest else rest

  -- The vectors after the loop, for any vectors before it.
  abbrev grown : List Codec → Sorted → Sorted
  grown cs s = record {
    matched = s.matched ++ of_rank 0 cs;
    partial_matched = s.partial_matched ++ of_rank 1 cs;
    unmatched = s.unmatched ++ of_rank 2 cs;
  }

  rank-cases : (c : Codec) → (rank c ≡ 0) ⊎ (rank c ≡ 1) ⊎ (rank c ≡ 2)
  unfolding rank
  rank-cases c = elim (Bool-cases (c.mime_type == wanted)) [
    | inl same ↦ elim (Option-cases c.sdp_fmtp_line) [
      | inl e ↦ inr (inl (rw (same, e) refl))
      | inr (line, e) ↦ elim (Bool-cases (contains_profile line)) [
        | inl it_does ↦ inl (rw (same, e, it_does) refl)
        | inr it_does_not ↦ inr (inl (rw (same, e, it_does_not) refl))
      ]
    ]
    | inr other ↦ inr (inr (rw other refl))
  ]

  -- The vector of a rank.
  place : ℕ → Codec → Sorted → Sorted
  place zero c s = record s { matched = s.matched ++ c ∷ [] }
  place (suc zero) c s = record s { partial_matched = s.partial_matched ++ c ∷ [] }
  place _ c s = record s { unmatched = s.unmatched ++ c ∷ [] }

  sort_codec-place :
      (c : Codec) (s : Sorted) → sort_codec contains_profile wanted c s ≡ place (rank c) c s
  unfolding sort_codec sort_wanted rank place
  sort_codec-place c s = ground arith

  place-grown :
      (c : Codec) (cs : List Codec) (s : Sorted) → grown cs (place (rank c) c s) ≡ grown (c ∷ cs) s
  unfolding place of_rank
  place-grown c cs s = elim (rank-cases c) [
    | inl first ↦ rw first (simp append_assoc)
    | inr (inl second) ↦ rw second (simp append_assoc)
    | inr (inr third) ↦ rw third (simp append_assoc)
  ]

  sort_codecs_lem :
      (cs : List Codec) (s : Sorted) → sort_codecs contains_profile wanted cs s ≡ grown cs s
  unfolding sort_codecs of_rank
  sort_codecs_lem [] s = simp append-nil
  sort_codecs_lem (c ∷ cs) s =
      sort_codecs_lem cs (sort_codec contains_profile wanted c s)
      ∙ (ap (grown cs) (sort_codec-place c s) ∙ place-grown c cs s)

  abbrev by_rank : List Codec → List Codec
  by_rank cs = of_rank 0 cs ++ of_rank 1 cs ++ of_rank 2 cs

  by_rank-perm : (cs : List Codec) → Perm (by_rank cs) cs
  unfolding of_rank
  by_rank-perm [] = Perm.refl []
  by_rank-perm (c ∷ cs) = elim (rank-cases c) [
    | inl first ↦ rw first (Perm.cons c (by_rank-perm cs))
    | inr (inl second) ↦ rw second (
        subst (λ l. Perm l (c ∷ cs))
          (sym (append_assoc (of_rank 0 cs) (c ∷ of_rank 1 cs) (of_rank 2 cs)))
          (Perm.trans (perm_middle (of_rank 0 cs) (of_rank 1 cs ++ of_rank 2 cs)) (
            Perm.cons c (
              subst (λ l. Perm l cs) (append_assoc (of_rank 0 cs) (of_rank 1 cs) (of_rank 2 cs))
                (by_rank-perm cs)))))
    | inr (inr third) ↦ rw third (
        Perm.trans (perm_middle (of_rank 0 cs ++ of_rank 1 cs) (of_rank 2 cs))
          (Perm.cons c (by_rank-perm cs)))
  ]

  -- The loop with its three vectors is a stable sort: the preferences are the capabilities of the
  -- first rank, then those of the second, then the rest, each in the order in which libwebrtc lists
  -- them; the wanted codec with the compatible profile comes first, then the wanted codec without
  -- it, and nothing is dropped or repeated: they are a permutation of the capabilities.
  pub codec_preferences_lem :
      (capabilities : List Codec)
      → (codec_preferences contains_profile wanted capabilities
          ≡ of_rank 0 capabilities ++ of_rank 1 capabilities ++ of_rank 2 capabilities)
        × Perm (codec_preferences contains_profile wanted capabilities) capabilities
  unfolding codec_preferences
  codec_preferences_lem capabilities =
      let e =
        ap (λ s. s.matched ++ s.partial_matched ++ s.unmatched)
          (sort_codecs_lem capabilities
            (record { matched = []; partial_matched = []; unmatched = [] })) in
      (e, subst (λ l. Perm l capabilities) (sym e) (by_rank-perm capabilities))
