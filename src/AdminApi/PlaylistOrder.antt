-- ===== src/AdminApi/PlaylistOrder.antt =====
-- The order of the videos of a playlist, through the requests of AdminApi/Playlists.antt.
use vlog.Prelude.{
  ℕ, false, Option, none, some, List, [], ◌∷◌, ◌≡◌, refl, ◌&&◌, find_first, Bool-cases,
  Option-cases, inl, inr,
}
use vlog.AdminApi.Positions.{placed, count_where}
use vlog.AdminApi.Ids.{has_duplicates, same_set}
use vlog.AdminApi.Playlists.{
  Catalogue, Dbms, live_playlist, live_video, is_item, close_gap, insert_at, place_item,
  add_video_to_playlist, take_out, remove_video_from_playlist, item_videos, reorder_playlist,
  delete_playlist, Request, serve_lists,
}
use vlog.AdminApi.PlaylistMoves.{IsOrdered, Fits}
use vlog.AdminApi.PlaylistRows.{
  insert_at_end-IsOrdered, insert_between-IsOrdered, take_out-IsOrdered, reorder_items-IsOrdered,
}

place_item-IsOrdered :
    (dbms : Dbms) (now p v : ℕ) (at : Option ℕ) (db : Catalogue)
    → Fits (Request.add p v at) db.items
    → find_first (is_item p v) db.items ≡ none
    → IsOrdered db.items
    → IsOrdered (place_item dbms now p v at db).1.items
unfolding place_item insert_at
place_item-IsOrdered dbms now p v none db fits fresh h =
    elim (Bool-cases (dbms.runs_text && dbms.locks_aggregates)) [
      | inl e ↦ rw e (insert_at_end-IsOrdered now p v db.items fresh h)
      | inr e ↦ rw e h
    ]
place_item-IsOrdered dbms now p v (some at) db fits fresh h = elim (Bool-cases dbms.runs_text) [
  | inl e ↦ rw e (insert_between-IsOrdered now p v at db.items fits fresh h)
  | inr e ↦ rw e h
]

add_video-IsOrdered :
    (dbms : Dbms) (now p v : ℕ) (at : Option ℕ) (db : Catalogue)
    → Fits (Request.add p v at) db.items
    → IsOrdered db.items
    → IsOrdered (add_video_to_playlist dbms now p v at db).1.items
unfolding add_video_to_playlist count_where placed
add_video-IsOrdered dbms now p v at db fits h = elim (Option-cases (live_playlist p db.playlists)) [
  | inl e ↦ rw (e, add_video_to_playlist) h
  | inr (_, e) ↦ elim (Option-cases (live_video v db.videos)) [
    | inl e' ↦ rw (e, e', add_video_to_playlist) h
    | inr (_, e') ↦ elim (Option-cases (find_first (is_item p v) db.items)) [
      | inl e'' ↦
          rw (e, e', e'', add_video_to_playlist)
            (place_item-IsOrdered dbms now p v at db fits e'' h)
      | inr (_, e'') ↦ rw (e, e', e'', add_video_to_playlist) h
    ]
  ]
]

remove_video-IsOrdered :
    (dbms : Dbms) (now p v : ℕ) (db : Catalogue)
    → IsOrdered db.items
    → IsOrdered (remove_video_from_playlist dbms now p v db).1.items
unfolding remove_video_from_playlist take_out close_gap count_where placed
remove_video-IsOrdered dbms now p v db h = elim (Option-cases (live_playlist p db.playlists)) [
  | inl e ↦ rw (e, remove_video_from_playlist) h
  | inr (_, e) ↦ elim (Option-cases (find_first (is_item p v) db.items)) [
    | inl e' ↦ rw (e, e', remove_video_from_playlist) h
    | inr (item, e') ↦ elim (Bool-cases dbms.runs_text) [
      | inl t ↦
          rw (e, e', t, remove_video_from_playlist) (take_out-IsOrdered p v item db.items e' h)
      | inr t ↦ rw (e, e', t, remove_video_from_playlist) h
    ]
  ]
]

reorder-IsOrdered :
    (dbms : Dbms) (now p : ℕ) (ids : List ℕ) (db : Catalogue)
    → has_duplicates ids ≡ false
    → IsOrdered db.items
    → IsOrdered (reorder_playlist dbms now p ids db).1.items
unfolding reorder_playlist count_where placed
reorder-IsOrdered dbms now p ids db u h = elim (Option-cases (live_playlist p db.playlists)) [
  | inl e ↦ rw (e, reorder_playlist) h
  | inr (_, e) ↦ elim (Bool-cases (same_set ids (item_videos p db.items))) [
    | inl e' ↦ elim (Bool-cases dbms.runs_text) [
      | inl t ↦
          rw (e, e', t, reorder_playlist)
            (reorder_items-IsOrdered dbms.choice p ids db.items u e' h)
      | inr t ↦ rw (e, e', t, reorder_playlist) h
    ]
    | inr e' ↦ rw (e, e', reorder_playlist) h
  ]
]

delete-items : (now p : ℕ) (db : Catalogue) → (delete_playlist now p db).1.items ≡ db.items
unfolding delete_playlist
delete-items now p db = elim (Option-cases (live_playlist p db.playlists)) [
  | inl e ↦ rw (e, delete_playlist) refl
  | inr (_, e) ↦ rw (e, delete_playlist) refl
]

serve_lists-IsOrdered :
    (dbms : Dbms) (now : ℕ) (r : Request) (db : Catalogue)
    → Fits r db.items
    → IsOrdered db.items
    → IsOrdered (serve_lists dbms now r db).items
unfolding serve_lists
serve_lists-IsOrdered dbms now (Request.add p v at) db fits h =
    add_video-IsOrdered dbms now p v at db fits h
serve_lists-IsOrdered dbms now (Request.remove p v) db fits h =
    remove_video-IsOrdered dbms now p v db h
serve_lists-IsOrdered dbms now (Request.reorder p ids) db fits h =
    reorder-IsOrdered dbms now p ids db fits h
serve_lists-IsOrdered dbms now (Request.delete p) db fits h = rw (delete-items now p db) h

-- A history of requests, each with its time; the first is the latest.
abbrev pub run : Dbms → List (ℕ × Request) → Catalogue → Catalogue
run dbms [] db = db
run dbms ((now, r) ∷ before) db = serve_lists dbms now r (run dbms before db)

abbrev pub AllFit : Dbms → List (ℕ × Request) → Catalogue → Type 0
AllFit dbms [] db = Unit
AllFit dbms ((now, r) ∷ before) db = Fits r (run dbms before db).items × AllFit dbms before db

-- Through any history of requests to add, remove and reorder videos and to delete playlists, in
-- which a position given to an addition is at most the one after the last and the ids of a reorder
-- are distinct: if every playlist holds a video at most once and shows its videos at the positions
-- 0, 1, ..., n - 1, one at each, then it still does, whatever the requests were answered, whether
-- or not the library runs a text statement with a dict of values, and whether or not the database
-- runs a locking read of an aggregate.
pub run-IsOrdered :
    (dbms : Dbms) (history : List (ℕ × Request)) (db : Catalogue)
    → AllFit dbms history db
    → IsOrdered db.items
    → IsOrdered (run dbms history db).items
run-IsOrdered dbms [] db fits h = h
run-IsOrdered dbms ((now, r) ∷ before) db fits h =
    serve_lists-IsOrdered dbms now r (run dbms before db) fits.0
      (run-IsOrdered dbms before db fits.1 h)
