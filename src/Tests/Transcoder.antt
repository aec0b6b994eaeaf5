-- ===== src/Tests/Transcoder.antt =====
-- worker/transcoder.py: the example of the docstring of `group_qualities_by_resolution`.
use vlog.Prelude.{ℕ, String, [], ◌∷◌, List, ◌≡◌, refl}
use vlog.Transcoder.Batches.{Quality, is_high, group_qualities_by_resolution}
use vlog.Transcoder.Grouping.{count, count_all, group_qualities_by_resolution-count}

abbrev quality : String → ℕ → Quality
quality n h = record { name = n; height = h }

abbrev ladder : List Quality
ladder =
    quality "2160p" 2160
    ∷ quality "1440p" 1440
    ∷ quality "1080p" 1080
    ∷ quality "720p" 720
    ∷ quality "480p" 480
    ∷ quality "360p" 360
    ∷ []

docstring :
    group_qualities_by_resolution ladder 2
    ≡ (quality "2160p" 2160 ∷ quality "720p" 720 ∷ [])
      ∷ (quality "1440p" 1440 ∷ quality "480p" 480 ∷ [])
      ∷ (quality "1080p" 1080 ∷ quality "360p" 360 ∷ [])
      ∷ []
unfolding group_qualities_by_resolution
docstring = refl

group_qualities_by_resolution-count_example :
    count_all is_high (group_qualities_by_resolution ladder 4) ≡ count is_high ladder
group_qualities_by_resolution-count_example = group_qualities_by_resolution-count is_high 4 ladder
