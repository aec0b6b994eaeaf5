-- ===== src/Tests/AdminApi.antt =====
-- The admin API on concrete tables.
use vlog.Prelude.{ℕ, true, false, none, some, [], ◌∷◌, ◌≡◌, refl, arith, List}
use vlog.WorkerApi.Schema.{http_error}
use vlog.AdminApi.Ids.{Choice, has_duplicates, mem, all_in, same_set, places, new_position}
use vlog.AdminApi.Positions.{next_position, placed, count_where}
use vlog.AdminApi.Reordering.{reorder_rows, move, idents}
use native.Mathlib.Decide.{ℕ_discrete}
use vlog.AdminApi.PlaylistSlugs.{IsRefused, deleted_slug_taken}
use vlog.AdminApi.Playlists.{
  Playlist, PlaylistItem, Catalogue, Dbms, Request, serve_lists, add_video_to_playlist,
  remove_video_from_playlist, live_playlist, live_video, is_item, place_item, insert_at, take_out,
  touch, shift_down, close_gap, reorder_items, item_videos, has_slug, set_position,
  reorder_playlist, create_playlist, delete_playlist,
}
use vlog.AdminApi.PlaylistMoves.{IsOrdered}
use vlog.AdminApi.PlaylistOrder.{run, AllFit, run-IsOrdered}
use vlog.Tests.Tables.{db}

abbrev pub choice : Choice
choice = record { pick = λ i more. i; only = λ i. refl }

abbrev pub dbms : Dbms
dbms = record { runs_text = true; locks_aggregates = true; choice = choice }

abbrev pub evening : Playlist
evening = record { id = 1; slug = "evening"; updated_at = none; deleted_at = none }

abbrev pub first : PlaylistItem
first = record { playlist_id = 1; video_id = 1; position = 0; added_at = 3 }

abbrev pub second : PlaylistItem
second = record { playlist_id = 1; video_id = 2; position = 1; added_at = 4 }

abbrev pub catalogue : Catalogue
catalogue = record { playlists = evening ∷ []; videos = db.videos; items = first ∷ second ∷ [] }

lists : Unit {0}
unfolding serve_lists create_playlist add_video_to_playlist remove_video_from_playlist
    reorder_playlist delete_playlist live_playlist live_video is_item place_item insert_at take_out
    touch shift_down close_gap reorder_items item_videos reorder_rows move idents new_position
    places same_set all_in mem next_position placed count_where has_slug has_duplicates set_position
lists = tt

-- A video is appended; the one before it is taken out; the order is turned round.
requests :
    let one = serve_lists dbms 9 (Request.add 1 2 none) (record catalogue { items = first ∷ [] }) in
    (one.items ≡ record second { added_at = 9 } ∷ first ∷ [])
    × ((serve_lists dbms 10 (Request.remove 1 1) one).items
        ≡ record second { added_at = 9; position = 0 } ∷ [])
    × ((serve_lists dbms 10 (Request.reorder 1 (2 ∷ 1 ∷ [])) catalogue).items
        ≡ record first { position = 1 } ∷ record second { position = 0 } ∷ [])
unfolding lists
requests = (refl, refl, refl)

-- A position beyond the end leaves a gap, and so does a repeated id in a reorder.
gaps :
    ((serve_lists dbms 9 (Request.add 1 2 (some 5)) (record catalogue { items = first ∷ [] })).items
      ≡ record second { added_at = 9; position = 5 } ∷ first ∷ [])
    × ((serve_lists dbms 9 (Request.reorder 1 (1 ∷ 1 ∷ 2 ∷ [])) catalogue).items
        ≡ first ∷ record second { position = 2 } ∷ [])
unfolding lists
gaps = (refl, refl)

-- Where the database refuses the locking read, no video can be appended.
refused_append :
    add_video_to_playlist
      (record dbms { locks_aggregates = false })
      9
      1
      2
      none
      (record catalogue { items = first ∷ [] })
    ≡ (http_error 500, record catalogue { items = first ∷ [] })
unfolding lists
refused_append = refl

catalogue-IsOrdered : IsOrdered catalogue.items
unfolding lists
catalogue-IsOrdered = (
  λ p v. ground arith,
  λ q. elim (ℕ_discrete q 1) [ yes e ↦ (2, λ i. ground arith) | no ne ↦ (0, λ i. ground arith) ],
)

abbrev evening_requests : List (ℕ × Request)
evening_requests =
    (12, Request.reorder 1 (2 ∷ 1 ∷ []))
    ∷ (11, Request.add 1 1 (some 0))
    ∷ (10, Request.remove 1 1)
    ∷ []

evening_requests-AllFit : AllFit dbms evening_requests catalogue
unfolding lists
evening_requests-AllFit = (refl, (omega arith, (tt, tt)))

run-IsOrdered_example : IsOrdered (run dbms evening_requests catalogue).items
run-IsOrdered_example =
    run-IsOrdered dbms evening_requests catalogue evening_requests-AllFit catalogue-IsOrdered

evening_is_live : live_playlist 1 catalogue.playlists ≡ some evening
unfolding lists
evening_is_live = refl

evening_slug : has_slug "evening" evening ≡ true
unfolding lists
evening_slug = refl

deleted_slug_taken_example :
    IsRefused
      (create_playlist (λ s. s) 20 2 "evening" (delete_playlist 10 1 catalogue).1)
      (delete_playlist 10 1 catalogue).1
deleted_slug_taken_example =
    deleted_slug_taken (λ s. s) 10 20 2 1 "evening" catalogue evening evening_is_live evening_slug
