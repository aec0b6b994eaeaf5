-- ===== src/Tests/Chapters.antt =====
-- The chapter endpoints on a video with two chapters.
use vlog.Prelude.{true, false, none, some, [], ◌∷◌, ◌≡◌, refl, arith}
use vlog.WorkerApi.Schema.{http_error}
use vlog.AdminApi.Positions.{placed, count_where}
use vlog.AdminApi.Reordering.{reorder_rows, move, idents}
use vlog.AdminApi.Ids.{same_set, all_in, mem, has_duplicates, places, new_position}
use vlog.AdminApi.Chapters.{
  Chapter, ChapterTables, ChapterDbms, create_chapter, update_chapter, delete_chapter,
  reorder_chapters, live, is_beyond, chapter_of, starts_beyond, ends_early, or_old, keep_or,
  is_timed, set_chapter, close_up, without_chapter, delete_rows, put_chapter, chapters_in_order,
  chapter_ids, chapter_count, set_has_chapters,
}
use vlog.AdminApi.ChapterOrder.{Request, serve_chapters, HasEachId, IsShown, serve_chapters-IsShown}
use vlog.Tests.AdminApi.{choice}

abbrev intro : Chapter
intro = record {
  id = 4;
  video_id = 1;
  title = "Intro";
  description = none;
  start_time = 0;
  end_time = some 10;
  position = 0;
}

abbrev body : Chapter
body = record intro { id = 5; title = "Body"; start_time = 10; end_time = none; position = 1 }

abbrev tables : ChapterTables
tables = record {
  videos = record { id = 1; duration = some 60; has_chapters = true; deleted_at = none } ∷ [];
  chapters = intro ∷ body ∷ [];
}

abbrev dbms : ChapterDbms
dbms = record { locks_aggregates = true; stops = λ before after. false; choice = choice }

chapters_program : Unit {0}
unfolding serve_chapters create_chapter update_chapter delete_chapter reorder_chapters live
    is_beyond chapter_of starts_beyond ends_early or_old keep_or is_timed set_chapter close_up
    without_chapter delete_rows put_chapter chapters_in_order chapter_ids chapter_count
    set_has_chapters reorder_rows move idents same_set all_in mem has_duplicates places new_position
    placed count_where
chapters_program = tt

-- Deleting the first chapter moves the second up; a new order moves both.
orders :
    ((serve_chapters dbms 1 (Request.delete 4) tables).chapters ≡ record body { position = 0 } ∷ [])
    × ((serve_chapters dbms 1 (Request.reorder (5 ∷ 4 ∷ [])) tables).chapters
        ≡ record intro { position = 1 } ∷ record body { position = 0 } ∷ [])
unfolding chapters_program
orders = (refl, refl)

-- A new start past the end that the chapter has is not refused but fails in the database.
late_start :
    (update_chapter 1 4
      (record { title = none; description = none; start_time = some 20; end_time = none })
      tables).0
    ≡ http_error 500
unfolding chapters_program
late_start = refl

each_id : HasEachId tables.chapters
unfolding chapters_program
each_id = λ k. ground arith

shown : IsShown 1 tables.chapters
unfolding chapters_program
shown = (2, λ i. ground arith)

serve_chapters-IsShown_example :
    IsShown 1 (serve_chapters dbms 1 (Request.delete 4) tables).chapters
serve_chapters-IsShown_example =
    serve_chapters-IsShown dbms 1 tables each_id shown (Request.delete 4)
