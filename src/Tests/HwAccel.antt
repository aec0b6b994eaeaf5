-- ===== src/Tests/HwAccel.antt =====
-- worker/hwaccel.py with a GPU that has no AV1 encoder.
use vlog.Prelude.{true, none, some, [], ◌∷◌, ◌≡◌, ◌⊎◌, refl}
use vlog.HwAccel.Selection.{
  nvidia, h264, hevc, av1, GpuCapabilities, select_encoder, get_recommended_parallel_sessions,
}
use vlog.HwAccel.Tags.{IsTagged, select_encoder-IsTagged}

abbrev card : GpuCapabilities
card = record {
  hwaccel_type = nvidia;
  device_path = none;
  encoders =
      (
        h264,
        record { name = "h264_nvenc"; codec = h264; hwaccel_type = nvidia; is_hardware = true }
            ∷ [],
      )
      ∷ (
        hevc,
        record { name = "hevc_nvenc"; codec = hevc; hwaccel_type = nvidia; is_hardware = true }
            ∷ [],
      )
      ∷ [];
  max_concurrent_sessions = 3;
}

program : Unit {0}
unfolding select_encoder get_recommended_parallel_sessions
program = tt

falls_back : (select_encoder "h264" (some card) 720 (some av1)).encoder.name ≡ "h264_nvenc"
unfolding program
falls_back = refl

on_cpu :
    (select_encoder "h265" none 720 none).output_args
    ≡ "-c:v" ∷ "libx265" ∷ "-preset" ∷ "medium" ∷ "-crf" ∷ "28" ∷ "-tag:v" ∷ "hvc1" ∷ []
unfolding program
on_cpu = refl

select_encoder-IsTagged_example :
    IsTagged (select_encoder "h264" (some card) 720 (some hevc))
    × (((select_encoder "h264" (some card) 720 (some hevc)).encoder.codec ≡ hevc)
        ⊎ ((select_encoder "h264" (some card) 720 (some hevc)).encoder.codec ≡ h264))
select_encoder-IsTagged_example =
    select_encoder-IsTagged "h264" card 720 (some hevc) ((refl, tt), ((refl, tt), tt))
