-- ===== src/SegmentWatcher/Files.antt =====
-- worker/segment_watcher.py: dictionaries and sets of file names, and the scan of the directory.
use text.Mathlib.Text.{◌==◌ as str_eq}
use vlog.Prelude.{
  ℕ, String, Bool, false, Option, none, some, List, [], ◌∷◌, ◌&&◌, ◌||◌, if◌then◌else◌,
}
use vlog.Prelude.Dicts.{Dict, put}

-- Sizes or counts by file name.
abbrev pub Files : Type 0
Files = Dict ℕ

-- Membership in a set of names, and its `discard`.
unfoldable pub has : String → List String → Bool
has n [] = false
has n (m ∷ rest) = str_eq n m || has n rest

unfoldable pub discard : String → List String → List String
discard n [] = []
discard n (m ∷ rest) = let left = discard n rest in if str_eq n m then left else m ∷ left

pub data StreamingFormat : Type 0 where
  cmaf hls_ts : StreamingFormat

-- A file as the scan finds it; `size` is missing where `stat` raises.
pub record Entry : Type 0 where
  pub name : String
  pub suffix : String
  pub is_file : Bool
  pub size : Option ℕ

-- The quality's directory: whether it exists, its entries, and those that match the glob pattern.
pub record Directory : Type 0 where
  pub exists_ : Bool
  pub entries : List Entry
  pub matching : List Entry

abbrev pub is_segment : Entry → Bool
is_segment f = f.is_file && (str_eq f.suffix ".m4s" || str_eq f.suffix ".mp4")

unfoldable pub put_sized : String → Option ℕ → Files → Files
put_sized n none files = files
put_sized n (some s) files = put n s files

unfoldable pub add_entry : (Entry → Bool) → Entry → Files → Files
add_entry p f files = if p f then put_sized f.name f.size files else files

unfoldable pub collect : (Entry → Bool) → List Entry → Files → Files
unfolding add_entry
collect p [] files = files
collect p (f ∷ rest) files = collect p rest (add_entry p f files)

abbrev pub format_files : StreamingFormat → Directory → Files
format_files cmaf d = collect is_segment d.entries []
format_files hls_ts d = collect (λ f. f.is_file) d.matching []

unfoldable pub get_segment_files : StreamingFormat → Directory → Files
get_segment_files format d = if d.exists_ then format_files format d else []
