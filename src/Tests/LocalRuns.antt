-- ===== src/Tests/LocalRuns.antt =====
-- Runs of the local worker on the small database.
use vlog.Prelude.{true, false, none, some, [], ◌∷◌, ◌≡◌, refl}
use vlog.Transcoder.Batches.{Quality}
use vlog.Transcoder.Jobs.{get_existing_job}
use vlog.Transcoder.Encodes.{Info, Outside, encoded, not_encoded, Tally}
use vlog.Transcoder.Process.{World, probed, process_video_resumable, encode_and_verify, encode_all}
use vlog.Transcoder.Outcomes.{Settled}
use vlog.Transcoder.Ending.{process_video-Settled}
use vlog.Transcoder.Verification.{encode_and_verify-eq}
use vlog.Tests.Tables.{config, video, job, db, none_taken}

abbrev small : Quality
small = record { name = "360p"; height = 360 }

abbrev outside : Outside
outside = record {
  stops = λ p. false;
  is_complete = λ n. false;
  remux = λ n. not_encoded none;
  transcode = λ n q. encoded;
  segment = λ n. none;
  bitrate = λ n. 600;
}

abbrev world : World
world = record {
  valid_slug = true;
  source_exists = true;
  taken = none_taken;
  probe = probed (record { width = 1280; height = 720; duration = 60 });
  thumbnail_exists = false;
  thumbnail = none;
  playlists = none;
  outside = outside;
  presets = record { name = "720p"; height = 720 } ∷ small ∷ [];
  smallest = small;
  parallel_count = 2;
  streaming_format = "cmaf";
  streaming_codec = "av1";
  all_failed = λ names. "all failed";
  attempt_failed = λ n e. e;
}

program : Unit {0}
unfolding process_video_resumable get_existing_job
program = tt

found : (get_existing_job config (record { now = 50; locked = false }) none_taken 1 db).1 ≡ some job
unfolding program
found = refl

process_video-Settled_example :
    Settled 50 1 7
      (process_video_resumable config world 50 1 false db).0
      (process_video_resumable config world 50 1 false db).1
process_video-Settled_example =
    process_video-Settled config world 50 1 false db video job refl refl refl refl found

abbrev empty : Tally
empty = record { successful = []; failed = []; rows = [] }

abbrev info : Info
info = record { width = 1280; height = 720; duration = 60 }

encode_and_verify-eq_example :
    encode_and_verify config world 50 1 7 info empty ≡ encode_all config world 50 1 7 info empty
encode_and_verify-eq_example = encode_and_verify-eq config world 50 1 7 info empty
