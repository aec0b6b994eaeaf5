-- ===== src/HwAccel/Tags.antt =====
-- worker/hwaccel.py: what holds of every encoder selection, and of the batches that run on one GPU.
use mathlib.Core.Path.{subst}
use text.Mathlib.Text.{◌==◌ as str_eq}
use vlog.Prelude.{
  ℕ, String, Bool, true, false, Option, none, some, List, [], ◌∷◌, ◌++◌, ◌≡◌, ◌≤◌, ◌<◌, ◌⊎◌, ◌-◌,
  ◌&&◌, ◌||◌, refl, sym, ap, ◌∙◌, arith, min, max, length, All, All-map, Bool-cases, inl, inr,
}
use vlog.HwAccel.Selection.{
  HwAccelType, no_hwaccel, nvidia, intel, auto, VideoCodec, h264, hevc, av1, EncoderInfo,
  GpuCapabilities, EncoderSelection, same_codec, encoders_of, hevc_tag, build_nvenc_selection,
  vaapi_args, build_vaapi_selection, encoder_name, codec_args, select_software_encoder, first_of,
  build_for, build_first, select_hardware_encoder, or_software, preferred_or, select_encoder,
  get_recommended_parallel_sessions,
}
use vlog.Transcoder.Batches.{Quality, group_qualities_by_resolution}
use vlog.Transcoder.Grouping.{group_qualities_by_resolution-All}

-- Two arguments that follow each other.
abbrev pub has_pair : String → String → List String → Bool
has_pair a b [] = false
has_pair a b (x ∷ []) = false
has_pair a b (x ∷ y ∷ rest) = (str_eq x a && str_eq y b) || has_pair a b (y ∷ rest)

-- The arguments name the encoder, and mark HEVC, and HEVC only, for Apple's players.
pub record IsTagged (s : EncoderSelection) : Type 0 where
  pub named : (rest : List String) × (s.output_args ≡ "-c:v" ∷ s.encoder.name ∷ rest)
  pub tagged : has_pair "-tag:v" "hvc1" s.output_args ≡ same_codec hevc s.encoder.codec

-- An encoder stands in the list of its codec.
abbrev pub IsFiled : List (VideoCodec × List EncoderInfo) → Type 0
IsFiled [] = Unit
IsFiled ((c, es) ∷ rest) = All (λ e. e.codec ≡ c) es × IsFiled rest

nvenc-IsTagged : (e : EncoderInfo) (height : ℕ) → IsTagged (build_nvenc_selection e height)
unfolding build_nvenc_selection
nvenc-IsTagged e height = record { named = (_, refl); tagged = go e.codec }
  where
    go :
        (c : VideoCodec)
        → has_pair "-tag:v" "hvc1" (
            ("-c:v" ∷ e.name ∷ "-preset" ∷ "p4" ∷ "-tune" ∷ "hq" ∷ "-rc" ∷ "vbr" ∷ "-rc-lookahead"
              ∷ "32" ∷ "-bf" ∷ "3" ∷ [])
            ++ hevc_tag c)
          ≡ same_codec hevc c
    go h264 = ground arith
    go hevc = ground arith
    go av1 = ground arith

vaapi-IsTagged :
    (e : EncoderInfo) (height : ℕ) (path : Option String)
    → IsTagged (build_vaapi_selection e height path)
unfolding build_vaapi_selection
vaapi-IsTagged e height path = record { named = (_, refl); tagged = go e.codec }
  where
    go :
        (c : VideoCodec)
        → has_pair "-tag:v" "hvc1" ("-c:v" ∷ e.name ∷ vaapi_args c) ≡ same_codec hevc c
    go h264 = ground arith
    go hevc = ground arith
    go av1 = ground arith

software-IsTagged : (c : VideoCodec) (height : ℕ) → IsTagged (select_software_encoder c height)
unfolding select_software_encoder
software-IsTagged c height = record { named = (_, refl); tagged = go c }
  where
    go :
        (c : VideoCodec)
        → has_pair "-tag:v" "hvc1" ("-c:v" ∷ encoder_name c ∷ codec_args c) ≡ same_codec hevc c
    go h264 = refl
    go hevc = refl
    go av1 = refl

abbrev OneOf : VideoCodec → VideoCodec → Type 0
OneOf c d = (d ≡ c) ⊎ (d ≡ h264)

codec_of : (d c : VideoCodec) → same_codec d c ≡ true → d ≡ c
codec_of h264 h264 h = refl
codec_of hevc hevc h = refl
codec_of av1 av1 h = refl
codec_of h264 hevc h = cc
codec_of h264 av1 h = cc
codec_of hevc h264 h = cc
codec_of hevc av1 h = cc
codec_of av1 h264 h = cc
codec_of av1 hevc h = cc

encoders_of-All :
    (c : VideoCodec) (m : List (VideoCodec × List EncoderInfo))
    → IsFiled m
    → All (λ e. e.codec ≡ c) (encoders_of c m)
unfolding encoders_of
encoders_of-All c [] h = tt
encoders_of-All c ((d, es) ∷ rest) h = elim (Bool-cases (same_codec d c)) [
  | inl e ↦ rw e (All-map (λ x q. q ∙ codec_of d c e) es h.0)
  | inr e ↦ rw e (encoders_of-All c rest h.1)
]

-- The first of two lists of encoders, each of one codec.
first_of-OneOf :
    (c : VideoCodec) (xs ys : List EncoderInfo) (e : EncoderInfo)
    → All (λ x. x.codec ≡ c) xs
    → All (λ x. x.codec ≡ h264) ys
    → first_of xs ys ≡ some e
    → OneOf c e.codec
unfolding first_of
first_of-OneOf c (x ∷ xs) ys e h i q = let same : x ≡ e = cc q in inl (rw same at h.0)
first_of-OneOf c [] (y ∷ ys) e h i q = let same : y ≡ e = cc q in inr (rw same at i.0)
first_of-OneOf c [] [] e h i q = cc

-- What is built for an encoder is for that encoder.
build_for-IsTagged :
    (t : HwAccelType) (e : EncoderInfo) (height : ℕ) (path : Option String) (s : EncoderSelection)
    → build_for t e height path ≡ some s
    → IsTagged s × (s.encoder ≡ e)
unfolding build_for build_nvenc_selection build_vaapi_selection
build_for-IsTagged nvidia e height path s h =
    let same : build_nvenc_selection e height ≡ s = cc h in
    (subst IsTagged same (nvenc-IsTagged e height), ap (λ x. x.encoder) (sym same))
build_for-IsTagged intel e height path s h =
    let same : build_vaapi_selection e height path ≡ s = cc h in
    (subst IsTagged same (vaapi-IsTagged e height path), ap (λ x. x.encoder) (sym same))
build_for-IsTagged no_hwaccel e height path s h = cc
build_for-IsTagged auto e height path s h = cc

hardware-IsTagged :
    (g : GpuCapabilities) (c : VideoCodec) (height : ℕ) (s : EncoderSelection)
    → IsFiled g.encoders
    → select_hardware_encoder g c height ≡ some s
    → IsTagged s × OneOf c s.encoder.codec
unfolding select_hardware_encoder
hardware-IsTagged g c height s filed h =
    go (first_of (encoders_of c g.encoders) (encoders_of h264 g.encoders)) refl h
  where
    go :
        (o : Option EncoderInfo)
        → first_of (encoders_of c g.encoders) (encoders_of h264 g.encoders) ≡ o
        → build_first g o height ≡ some s
        → IsTagged s × OneOf c s.encoder.codec
    go none e q = cc
    go (some x) e q =
        let built = build_for-IsTagged g.hwaccel_type x height g.device_path s q in
        let one =
          first_of-OneOf c _ _ x (encoders_of-All c g.encoders filed)
            (encoders_of-All h264 g.encoders filed) e in
        (built.0, subst (λ y. OneOf c y.codec) (sym built.1) one)

-- Whatever the GPU, if each of its encoders is listed under its own codec: the arguments that
-- `select_encoder` returns name the encoder that it returns and carry the hvc1 tag exactly if its codec is
-- HEVC, and that codec is the preferred one or H.264.
pub select_encoder-IsTagged :
    (variable : String) (g : GpuCapabilities) (height : ℕ) (preferred : Option VideoCodec)
    → IsFiled g.encoders
    → IsTagged (select_encoder variable (some g) height preferred)
      × ((((select_encoder variable (some g) height preferred).encoder.codec
            ≡ preferred_or preferred variable))
          ⊎ ((select_encoder variable (some g) height preferred).encoder.codec ≡ h264))
unfolding select_encoder select_software_encoder
select_encoder-IsTagged variable g height preferred filed =
    go (select_hardware_encoder g (preferred_or preferred variable) height) refl
  where
    go :
        (o : Option EncoderSelection)
        → select_hardware_encoder g (preferred_or preferred variable) height ≡ o
        → IsTagged (or_software o (preferred_or preferred variable) height)
          × OneOf
              (preferred_or preferred variable)
              (or_software o (preferred_or preferred variable) height).encoder.codec
    go none e = (software-IsTagged (preferred_or preferred variable) height, inl refl)
    go (some s) e = hardware-IsTagged g (preferred_or preferred variable) height s filed e

-- With automatic detection on a GPU, no batch of the qualities of a video is empty, none has more than
-- three, and none takes all the sessions of a GPU that has at least two.
pub batches-sessions :
    (configured : ℕ) (g : GpuCapabilities) (qs : List Quality)
    → 2 ≤ g.max_concurrent_sessions
    → All
        (λ b. (1 ≤ length b) × (length b ≤ 3) × (length b < g.max_concurrent_sessions))
        (group_qualities_by_resolution qs
          (get_recommended_parallel_sessions true configured (some g)))
unfolding get_recommended_parallel_sessions
batches-sessions configured g qs two =
    let n = min 3 (max 1 (g.max_concurrent_sessions - 1)) in
    All-map (λ b h. (h.0, omega (arith, h.1), omega (arith, h.1, two)))
      (group_qualities_by_resolution qs n) (group_qualities_by_resolution-All n qs)
