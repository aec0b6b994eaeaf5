-- ===== src/AdminApi/Playlists.antt =====
-- The playlist endpoints of api/admin.py that change which videos a playlist has, and in which
-- order: add_video_to_playlist, remove_video_from_playlist and reorder_playlist, and
-- get_playlist_videos, which reads the order. Each request runs alone.
use text.Mathlib.Text.{◌==◌ as str_eq}
use vlog.Prelude.{
  ℕ, String, ◌+◌, ◌-◌, Bool, not, ◌&&◌, Option, none, some, List, ◌∷◌, ◌==◌, leb, ltb,
  if◌then◌else◌, is_none, find_first, keep_if, update_where,
}
use vlog.Prelude.Tables.{update_key}
use vlog.WorkerApi.Schema.{Video, Reply, ok, http_error}
use vlog.AdminApi.Positions.{next_position}
use vlog.AdminApi.Ids.{Choice, same_set}
use vlog.AdminApi.Reordering.{reorder_rows, idents}

pub record Playlist : Type 0 where
  pub id : ℕ
  pub slug : String
  pub updated_at : Option ℕ
  pub deleted_at : Option ℕ

pub record PlaylistItem : Type 0 where
  pub playlist_id : ℕ
  pub video_id : ℕ
  pub position : ℕ
  pub added_at : ℕ

pub record Catalogue : Type 0 where
  pub playlists : List Playlist
  pub videos : List Video
  pub items : List PlaylistItem

-- What becomes of the statements here: whether the library runs a `sa.text` statement that is passed
-- with a dict of values, or raises; whether the database runs `SELECT MAX(...) ... FOR UPDATE`, a
-- locking read of an aggregate, or answers with an error; and which of several matching rows
-- `UPDATE ... FROM` takes.
pub record Dbms : Type 0 where
  pub runs_text : Bool
  pub locks_aggregates : Bool
  pub choice : Choice

-- `playlists.select().where(id == k).where(deleted_at IS NULL)`.
unfoldable pub live_playlist : ℕ → List Playlist → Option Playlist
live_playlist k rows = find_first (λ p. (p.id == k) && is_none p.deleted_at) rows

unfoldable pub live_video : ℕ → List Video → Option Video
live_video k rows = find_first (λ v. (v.id == k) && is_none v.deleted_at) rows

-- The row of a video in a playlist.
unfoldable pub is_item : ℕ → ℕ → PlaylistItem → Bool
is_item p v x = (x.playlist_id == p) && (x.video_id == v)

unfoldable pub touch : ℕ → ℕ → List Playlist → List Playlist
touch now p rows = update_key (λ x. x.id) p (λ x. record x { updated_at = some now }) rows

unfoldable pub shift_down : ℕ → ℕ → List PlaylistItem → List PlaylistItem
shift_down p at items =
    update_where (λ x. (x.playlist_id == p) && leb at x.position)
      (λ x. record x { position = x.position + 1 }) items

-- Only positions above `at` are lowered, so the subtraction never stops at 0.
unfoldable pub close_gap : ℕ → ℕ → List PlaylistItem → List PlaylistItem
close_gap p at items =
    update_where (λ x. (x.playlist_id == p) && ltb at x.position)
      (λ x. record x { position = x.position - 1 }) items

unfoldable pub insert_at : ℕ → ℕ → ℕ → ℕ → Catalogue → Reply ℕ × Catalogue
insert_at now p v at db = (
  ok at,
  record db {
    items = record { playlist_id = p; video_id = v; position = at; added_at = now } ∷ db.items;
    playlists = touch now p db.playlists;
  },
)

-- The transaction: an error in it leaves the tables as they were.
unfoldable pub place_item : Dbms → ℕ → ℕ → ℕ → Option ℕ → Catalogue → Reply ℕ × Catalogue
place_item dbms now p v none db =
    if dbms.runs_text && dbms.locks_aggregates
    then insert_at now p v (next_position (λ x. x.playlist_id) (λ x. x.position) p db.items) db
    else (http_error 500, db)
place_item dbms now p v (some at) db =
    if dbms.runs_text
    then insert_at now p v at (record db { items = shift_down p at db.items })
    else (http_error 500, db)

-- The answer carries the position.
unfoldable pub add_video_to_playlist : Dbms → ℕ → ℕ → ℕ → Option ℕ → Catalogue → Reply ℕ × Catalogue
add_video_to_playlist dbms now p v at db = elim (live_playlist p db.playlists) [
  | none ↦ (http_error 404, db)
  | some playlist ↦ elim (live_video v db.videos) [
    | none ↦ (http_error 404, db)
    | some video ↦ elim (find_first (is_item p v) db.items) [
      | some existing ↦ (http_error 400, db)
      | none ↦ place_item dbms now p v at db
    ]
  ]
]

unfoldable pub take_out : ℕ → ℕ → ℕ → PlaylistItem → Catalogue → Catalogue
take_out now p v item db = record db {
  items = close_gap p item.position (keep_if (λ x. not (is_item p v x)) db.items);
  playlists = touch now p db.playlists;
}

unfoldable pub remove_video_from_playlist :
    Dbms → ℕ → ℕ → ℕ → Catalogue → Reply {0} Unit × Catalogue
remove_video_from_playlist dbms now p v db = elim (live_playlist p db.playlists) [
  | none ↦ (http_error 404, db)
  | some playlist ↦ elim (find_first (is_item p v) db.items) [
    | none ↦ (http_error 404, db)
    | some item ↦ if dbms.runs_text then (ok tt, take_out now p v item db) else (http_error 500, db)
  ]
]

unfoldable pub set_position : ℕ → PlaylistItem → PlaylistItem
set_position i x = record x { position = i }

unfoldable pub reorder_items : Choice → ℕ → List ℕ → List PlaylistItem → List PlaylistItem
reorder_items c p ids items =
    reorder_rows (λ x. x.playlist_id) (λ x. x.position) (λ x. x.video_id) set_position c p ids items

unfoldable pub item_videos : ℕ → List PlaylistItem → List ℕ
item_videos p items =
    idents (λ x. x.playlist_id) (λ x. x.position) (λ x. x.video_id) set_position p items

-- The request has at least one id.
unfoldable pub reorder_playlist : Dbms → ℕ → ℕ → List ℕ → Catalogue → Reply {0} Unit × Catalogue
reorder_playlist dbms now p ids db = elim (live_playlist p db.playlists) [
  | none ↦ (http_error 404, db)
  | some playlist ↦
      if same_set ids (item_videos p db.items)
      then if dbms.runs_text
        then (
          ok tt,
          record db {
            items = reorder_items dbms.choice p ids db.items;
            playlists = touch now p db.playlists;
          },
        )
        else (http_error 500, db)
      else (http_error 400, db)
]

-- delete_playlist.
unfoldable pub delete_playlist : ℕ → ℕ → Catalogue → Reply {0} Unit × Catalogue
delete_playlist now p db = elim (live_playlist p db.playlists) [
  | none ↦ (http_error 404, db)
  | some playlist ↦ (
    ok tt,
    record db {
      playlists = update_key (λ x. x.id) p (λ x. record x { deleted_at = some now }) db.playlists;
    },
  )
]

-- create_playlist. `slugify` is the slug of the title and `id` the database's next key; a slug that
-- any row has, deleted or not, violates the UNIQUE constraint on playlists.slug.
unfoldable pub has_slug : String → Playlist → Bool
has_slug s p = str_eq p.slug s

unfoldable pub create_playlist :
    (String → String) → ℕ → ℕ → String → Catalogue → Reply ℕ × Catalogue
create_playlist slugify now id title db =
    elim (find_first (λ p. has_slug (slugify title) p && is_none p.deleted_at) db.playlists) [
      | some existing ↦ (http_error 400, db)
      | none ↦ elim (find_first (has_slug (slugify title)) db.playlists) [
        | some taken ↦ (http_error 500, db)
        | none ↦ (
          ok id,
          record db {
            playlists =
                record { id = id; slug = slugify title; updated_at = some now; deleted_at = none }
                ∷ db.playlists;
          },
        )
      ]
    ]

-- A request to one of these endpoints, with its time.
pub data Request : Type 0 where
  add : ℕ → ℕ → Option ℕ → Request
  remove : ℕ → ℕ → Request
  reorder : ℕ → List ℕ → Request
  delete : ℕ → Request

unfoldable pub serve_lists : Dbms → ℕ → Request → Catalogue → Catalogue
serve_lists dbms now (add p v at) db = (add_video_to_playlist dbms now p v at db).1
serve_lists dbms now (remove p v) db = (remove_video_from_playlist dbms now p v db).1
serve_lists dbms now (reorder p ids) db = (reorder_playlist dbms now p ids db).1
serve_lists dbms now (delete p) db = (delete_playlist now p db).1
