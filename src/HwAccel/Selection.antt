-- ===== src/HwAccel/Selection.antt =====
-- worker/hwaccel.py: `select_encoder` with what it builds, `get_codec_string` and
-- `get_recommended_parallel_sessions`. What the probes found is an argument.
use text.Mathlib.Text.{◌==◌ as str_eq}
use vlog.Prelude.{
  ℕ, String, Bool, true, false, Option, none, some, List, [], ◌∷◌, ◌++◌, ◌-◌, ◌||◌, if◌then◌else◌,
  min, max,
}
use vlog.Prelude.Text.{append}

pub data HwAccelType : Type 0 where
  no_hwaccel nvidia intel auto : HwAccelType

pub data VideoCodec : Type 0 where
  h264 hevc av1 : VideoCodec

pub record EncoderInfo : Type 0 where
  pub name : String
  pub codec : VideoCodec
  pub hwaccel_type : HwAccelType
  pub is_hardware : Bool

pub record GpuCapabilities : Type 0 where
  pub hwaccel_type : HwAccelType
  pub device_path : Option String
  pub encoders : List (VideoCodec × List EncoderInfo)
  pub max_concurrent_sessions : ℕ

-- The scale filters, by the height in them: `scale=-2:h` and
-- `format=nv12,hwupload,scale_vaapi=-2:h`.
pub data ScaleFilter : Type 0 where
  scale scale_vaapi : ℕ → ScaleFilter

pub record EncoderSelection : Type 0 where
  pub encoder : EncoderInfo
  pub input_args : List String
  pub output_args : List String
  pub scale_filter : ScaleFilter

abbrev pub same_codec : VideoCodec → VideoCodec → Bool
same_codec h264 h264 = true
same_codec hevc hevc = true
same_codec av1 av1 = true
same_codec _ _ = false

-- `encoders.get(codec, [])`.
unfoldable pub encoders_of : VideoCodec → List (VideoCodec × List EncoderInfo) → List EncoderInfo
encoders_of c [] = []
encoders_of c ((d, es) ∷ rest) =
    let later = encoders_of c rest in if same_codec d c then es else later

abbrev pub hevc_tag : VideoCodec → List String
hevc_tag hevc = "-tag:v" ∷ "hvc1" ∷ []
hevc_tag h264 = []
hevc_tag av1 = []

unfoldable pub build_nvenc_selection : EncoderInfo → ℕ → EncoderSelection
build_nvenc_selection e height = record {
  encoder = e;
  input_args = "-hwaccel" ∷ "cuda" ∷ [];
  output_args =
      ("-c:v" ∷ e.name ∷ "-preset" ∷ "p4" ∷ "-tune" ∷ "hq" ∷ "-rc" ∷ "vbr" ∷ "-rc-lookahead" ∷ "32"
        ∷ "-bf" ∷ "3" ∷ [])
      ++ hevc_tag e.codec;
  scale_filter = scale height;
}

abbrev pub vaapi_args : VideoCodec → List String
vaapi_args h264 = "-qp" ∷ "23" ∷ "-profile:v" ∷ "high" ∷ []
vaapi_args hevc = "-qp" ∷ "25" ∷ "-profile:v" ∷ "main" ∷ "-tag:v" ∷ "hvc1" ∷ []
vaapi_args av1 = "-qp" ∷ "30" ∷ []

-- `device_path or "/dev/dri/renderD128"`.
abbrev pub device_of : Option String → String
device_of none = "/dev/dri/renderD128"
device_of (some path) = if str_eq path "" then "/dev/dri/renderD128" else path

unfoldable pub build_vaapi_selection : EncoderInfo → ℕ → Option String → EncoderSelection
build_vaapi_selection e height path = record {
  encoder = e;
  input_args = "-vaapi_device" ∷ device_of path ∷ [];
  output_args = "-c:v" ∷ e.name ∷ vaapi_args e.codec;
  scale_filter = scale_vaapi height;
}

abbrev pub encoder_name : VideoCodec → String
encoder_name h264 = "libx264"
encoder_name hevc = "libx265"
encoder_name av1 = "libsvtav1"

abbrev pub codec_args : VideoCodec → List String
codec_args h264 = "-preset" ∷ "medium" ∷ "-crf" ∷ "23" ∷ []
codec_args hevc = "-preset" ∷ "medium" ∷ "-crf" ∷ "28" ∷ "-tag:v" ∷ "hvc1" ∷ []
codec_args av1 = "-preset" ∷ "6" ∷ "-crf" ∷ "30" ∷ []

unfoldable pub select_software_encoder : VideoCodec → ℕ → EncoderSelection
select_software_encoder c height = record {
  encoder = record {
    name = encoder_name c;
    codec = c;
    hwaccel_type = no_hwaccel;
    is_hardware = false;
  };
  input_args = [];
  output_args = "-c:v" ∷ encoder_name c ∷ codec_args c;
  scale_filter = scale height;
}

-- The first encoder for the codec, or else the first for H.264.
unfoldable pub first_of : List EncoderInfo → List EncoderInfo → Option EncoderInfo
first_of (e ∷ rest) fallback = some e
first_of [] (e ∷ rest) = some e
first_of [] [] = none

unfoldable pub build_for : HwAccelType → EncoderInfo → ℕ → Option String → Option EncoderSelection
unfolding build_nvenc_selection build_vaapi_selection
build_for nvidia e height path = some (build_nvenc_selection e height)
build_for intel e height path = some (build_vaapi_selection e height path)
build_for no_hwaccel e height path = none
build_for auto e height path = none

abbrev pub build_first : GpuCapabilities → Option EncoderInfo → ℕ → Option EncoderSelection
build_first g none height = none
build_first g (some e) height = build_for g.hwaccel_type e height g.device_path

unfoldable pub select_hardware_encoder : GpuCapabilities → VideoCodec → ℕ → Option EncoderSelection
unfolding encoders_of first_of build_for
select_hardware_encoder g c height =
    build_first g (first_of (encoders_of c g.encoders) (encoders_of h264 g.encoders)) height

abbrev pub or_software : Option EncoderSelection → VideoCodec → ℕ → EncoderSelection
or_software none c height = select_software_encoder c height
or_software (some s) c height = s

-- `_get_preferred_codec`, of the variable VLOG_HWACCEL_PREFERRED_CODEC in lower case.
unfoldable pub get_preferred_codec : String → VideoCodec
get_preferred_codec s =
    if str_eq s "hevc" || str_eq s "h265" then hevc else if str_eq s "av1" then av1 else h264

abbrev pub preferred_or : Option VideoCodec → String → VideoCodec
preferred_or none variable = get_preferred_codec variable
preferred_or (some c) variable = c

-- A GPU without encoders is passed over, which is what `select_hardware_encoder` says of it too.
unfoldable pub select_encoder :
    String → Option GpuCapabilities → ℕ → Option VideoCodec → EncoderSelection
unfolding get_preferred_codec select_hardware_encoder select_software_encoder
select_encoder variable none height preferred =
    select_software_encoder (preferred_or preferred variable) height
select_encoder variable (some g) height preferred =
    or_software (select_hardware_encoder g (preferred_or preferred variable) height)
      (preferred_or preferred variable) height

unfoldable pub get_codec_string : VideoCodec → String → String
get_codec_string hevc level = append "hvc1.1.6." (append level ".90,mp4a.40.2")
get_codec_string av1 level = "av01.0.08M.08,mp4a.40.2"
get_codec_string h264 level = "avc1.640028,mp4a.40.2"

-- `automatic` and `configured` are PARALLEL_QUALITIES_AUTO and PARALLEL_QUALITIES.
unfoldable pub get_recommended_parallel_sessions : Bool → ℕ → Option GpuCapabilities → ℕ
get_recommended_parallel_sessions automatic configured none = max 1 configured
get_recommended_parallel_sessions automatic configured (some g) =
    if automatic then min 3 (max 1 (g.max_concurrent_sessions - 1)) else max 1 configured
