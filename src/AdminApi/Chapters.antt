-- ===== src/AdminApi/Chapters.antt =====
-- The chapter endpoints of api/admin.py: create_chapter, update_chapter, delete_chapter and
-- reorder_chapters. Times, which are finite and at least 0, are only compared: they are numbers of
-- the smallest unit that occurs. Requests have passed the validators of api/schemas.py. Chapters
-- have a unique position in their video and an end after their start, by constraints of the table;
-- whether an UPDATE of positions violates the former on its way is up to the database.
use vlog.Prelude.{
  ℕ, String, Bool, true, false, not, Option, none, some, List, ◌∷◌, ◌-◌, ◌==◌, ◌&&◌, leb, ltb,
  if◌then◌else◌, is_none, find_first, keep_if, update_where,
}
use vlog.Prelude.Tables.{fetch, update_key}
use vlog.WorkerApi.Schema.{Reply, ok, http_error}
use vlog.AdminApi.Positions.{next_position, count_where}
use vlog.AdminApi.Ids.{Choice, has_duplicates, same_set}
use vlog.AdminApi.Reordering.{reorder_rows, idents}

pub record ChapteredVideo : Type 0 where
  pub id : ℕ
  pub duration : Option ℕ
  pub has_chapters : Bool
  pub deleted_at : Option ℕ

pub record Chapter : Type 0 where
  pub id : ℕ
  pub video_id : ℕ
  pub title : String
  pub description : Option String
  pub start_time : ℕ
  pub end_time : Option ℕ
  pub position : ℕ

pub record ChapterTables : Type 0 where
  pub videos : List ChapteredVideo
  pub chapters : List Chapter

-- What becomes of the `sa.text` statements here, each passed with a dict of values: whether the
-- locking read of an aggregate runs, whether an UPDATE that makes the second list of the first is
-- stopped (by the unique constraint, or by the library, which may not run it), and which of several
-- matching rows an UPDATE takes.
pub record ChapterDbms : Type 0 where
  pub locks_aggregates : Bool
  pub stops : List Chapter → List Chapter → Bool
  pub choice : Choice

pub record ChapterCreate : Type 0 where
  pub title : String
  pub description : Option String
  pub start_time : ℕ
  pub end_time : Option ℕ

pub record ChapterUpdate : Type 0 where
  pub title : Option String
  pub description : Option String
  pub start_time : Option ℕ
  pub end_time : Option ℕ

abbrev pub max_chapters_per_video : ℕ
max_chapters_per_video = 50

unfoldable pub live : ℕ → List ChapteredVideo → Option ChapteredVideo
live v rows = find_first (λ x. (x.id == v) && is_none x.deleted_at) rows

-- `video["duration"] and start_time >= video["duration"]`: a duration of 0 counts as none.
unfoldable pub is_beyond : Option ℕ → ℕ → Bool
is_beyond none t = false
is_beyond (some d) t = not (d == 0) && leb d t

unfoldable pub set_has_chapters : Bool → ChapteredVideo → ChapteredVideo
set_has_chapters b x = record x { has_chapters = b }

unfoldable pub chapter_position : ℕ → List Chapter → ℕ
chapter_position v rows = next_position (λ x. x.video_id) (λ x. x.position) v rows

unfoldable pub chapter_count : ℕ → List Chapter → ℕ
chapter_count v rows = count_where (λ x. x.video_id == v) rows

unfoldable pub insert_chapter : ℕ → ℕ → ChapterCreate → ChapterTables → ChapterTables
insert_chapter id v d db = record db {
  chapters =
      record {
        id = id;
        video_id = v;
        title = d.title;
        description = d.description;
        start_time = d.start_time;
        end_time = d.end_time;
        position = chapter_position v db.chapters;
      }
      ∷ db.chapters;
  videos = update_key (λ x. x.id) v (set_has_chapters true) db.videos;
}

-- `id` is the database's next key, which the answer carries.
unfoldable pub create_chapter :
    ChapterDbms → ℕ → ℕ → ChapterCreate → ChapterTables → Reply ℕ × ChapterTables
create_chapter dbms id v d db = elim (live v db.videos) [
  | none ↦ (http_error 404, db)
  | some video ↦
      if is_beyond video.duration d.start_time
      then (http_error 400, db)
      else if leb max_chapters_per_video (chapter_count v db.chapters)
      then (http_error 400, db)
      else if dbms.locks_aggregates
      then (ok id, insert_chapter id v d db)
      else (http_error 500, db)
]

-- The chapter with an id, if it is the video's.
unfoldable pub chapter_of : ℕ → ℕ → List Chapter → Option Chapter
chapter_of v k rows = find_first (λ x. (x.id == k) && (x.video_id == v)) rows

unfoldable pub or_old {ℓ} : {A : Type ℓ} → Option A → A → A
or_old none old = old
or_old (some new) old = new

-- `data.end_time <= start_time`, where an end is given.
unfoldable pub ends_early : Option ℕ → ℕ → Bool
ends_early none start = false
ends_early (some e) start = leb e start

unfoldable pub starts_beyond : Option ChapteredVideo → Option ℕ → Bool
starts_beyond video none = false
starts_beyond none (some t) = false
starts_beyond (some x) (some t) = is_beyond x.duration t

unfoldable pub keep_or {ℓ} : {A : Type ℓ} → Option A → Option A → Option A
keep_or none old = old
keep_or (some new) old = some new

unfoldable pub set_chapter : ChapterUpdate → Chapter → Chapter
set_chapter d x = record x {
  title = or_old d.title x.title;
  description = keep_or d.description x.description;
  start_time = or_old d.start_time x.start_time;
  end_time = keep_or d.end_time x.end_time;
}

-- CHECK (end_time IS NULL OR end_time > start_time).
unfoldable pub is_timed : Chapter → Bool
is_timed x = not (ends_early x.end_time x.start_time)

-- A row that fails the CHECK is an unhandled error.
unfoldable pub update_chapter :
    ℕ → ℕ → ChapterUpdate → ChapterTables → Reply {0} Unit × ChapterTables
update_chapter v k d db = elim (chapter_of v k db.chapters) [
  | none ↦ (http_error 404, db)
  | some chapter ↦
      if starts_beyond (fetch (λ x. x.id) v db.videos) d.start_time
      then (http_error 400, db)
      else if ends_early d.end_time (or_old d.start_time chapter.start_time)
      then (http_error 400, db)
      else if is_timed (set_chapter d chapter)
      then (ok tt, record db { chapters = update_key (λ x. x.id) k (set_chapter d) db.chapters })
      else (http_error 500, db)
]

unfoldable pub close_up : ℕ → ℕ → List Chapter → List Chapter
close_up v at rows =
    update_where (λ x. (x.video_id == v) && ltb at x.position)
      (λ x. record x { position = x.position - 1 }) rows

unfoldable pub without_chapter : ℕ → ChapterTables → List Chapter
without_chapter k db = keep_if (λ x. not (x.id == k)) db.chapters

unfoldable pub delete_rows : ℕ → ℕ → ℕ → ChapterTables → ChapterTables
delete_rows v k at db =
    let rest = close_up v at (without_chapter k db) in
    record db {
      chapters = rest;
      videos =
          if chapter_count v rest == 0
          then update_key (λ x. x.id) v (set_has_chapters false) db.videos
          else db.videos;
    }

unfoldable pub delete_chapter : ChapterDbms → ℕ → ℕ → ChapterTables → Reply {0} Unit × ChapterTables
delete_chapter dbms v k db = elim (chapter_of v k db.chapters) [
  | none ↦ (http_error 404, db)
  | some chapter ↦
      if dbms.stops (without_chapter k db) (close_up v chapter.position (without_chapter k db))
      then (http_error 500, db)
      else (ok tt, delete_rows v k chapter.position db)
]

unfoldable pub put_chapter : ℕ → Chapter → Chapter
put_chapter i x = record x { position = i }

unfoldable pub chapters_in_order : Choice → ℕ → List ℕ → List Chapter → List Chapter
chapters_in_order c v ids rows =
    reorder_rows (λ x. x.video_id) (λ x. x.position) (λ x. x.id) put_chapter c v ids rows

unfoldable pub chapter_ids : ℕ → List Chapter → List ℕ
chapter_ids v rows = idents (λ x. x.video_id) (λ x. x.position) (λ x. x.id) put_chapter v rows

unfoldable pub reorder_chapters :
    ChapterDbms → ℕ → List ℕ → ChapterTables → Reply {0} Unit × ChapterTables
reorder_chapters dbms v ids db =
    if has_duplicates ids then (http_error 400, db) else elim (live v db.videos) [
      | none ↦ (http_error 404, db)
      | some video ↦
          if same_set ids (chapter_ids v db.chapters)
          then if dbms.stops db.chapters (chapters_in_order dbms.choice v ids db.chapters)
            then (http_error 500, db)
            else (ok tt, record db { chapters = chapters_in_order dbms.choice v ids db.chapters })
          else (http_error 400, db)
    ]
