-- ===== src/AdminApi/ChapterOrder.antt =====
-- The positions of the chapters of a video, through the requests of AdminApi/Chapters.antt.
use vlog.Prelude.{
  ℕ, ◌+◌, ◌-◌, ◌≤◌, true, false, not, ◌&&◌, some, List, [], ◌∷◌, ◌==◌, leb, ◌≡◌, refl, sym, ◌∙◌,
  arith, if◌then◌else◌, find_first, keep_if, update_where, length, Bool-cases, Option-cases, inl,
  inr,
}
use vlog.Prelude.Tables.{fetch}
use vlog.AdminApi.Positions.{
  placed, IsNumbered, count_where, next_position_eq, placed_closed, placed_deleted, placed_kept,
  count_and-le,
}
use vlog.AdminApi.Ids.{Choice, has_duplicates, same_set}
use vlog.AdminApi.Reordering.{reorder_rows-IsNumbered}
use vlog.AdminApi.Chapters.{
  Chapter, ChapteredVideo, ChapterTables, ChapterDbms, ChapterCreate, ChapterUpdate, live,
  is_beyond, max_chapters_per_video, chapter_count, chapter_position, insert_chapter,
  create_chapter, chapter_of, starts_beyond, ends_early, or_old, is_timed, set_chapter,
  update_chapter, close_up, without_chapter, delete_rows, delete_chapter, put_chapter,
  chapters_in_order, chapter_ids, reorder_chapters,
}

-- The video shows `n` chapters, at 0, 1, ..., n - 1.
abbrev pub ShowsInOrder : ℕ → ℕ → List Chapter → Type 0
ShowsInOrder v n rows = IsNumbered (λ x. x.video_id) (λ x. x.position) v n rows

-- The primary key of the chapters.
abbrev pub HasEachId : List Chapter → Type 0
HasEachId rows = (k : ℕ) → count_where (λ x. x.id == k) rows ≤ 1

-- A request about one video.
pub data Request : Type 0 where
  create : ℕ → ChapterCreate → Request
  edit : ℕ → ChapterUpdate → Request
  delete : ℕ → Request
  reorder : List ℕ → Request

unfoldable pub serve_chapters : ChapterDbms → ℕ → Request → ChapterTables → ChapterTables
serve_chapters dbms v (Request.create id d) db = (create_chapter dbms id v d db).1
serve_chapters dbms v (Request.edit k d) db = (update_chapter v k d db).1
serve_chapters dbms v (Request.delete k) db = (delete_chapter dbms v k db).1
serve_chapters dbms v (Request.reorder ids) db = (reorder_chapters dbms v ids db).1

-- Some number of chapters is shown in order.
abbrev pub IsShown : ℕ → List Chapter → Type 0
IsShown v rows = (n : ℕ) × ShowsInOrder v n rows

insert-IsShown :
    (id v : ℕ) (d : ChapterCreate) (db : ChapterTables)
    → IsShown v db.chapters
    → IsShown v (insert_chapter id v d db).chapters
unfolding insert_chapter chapter_position placed
insert-IsShown id v d db h = (
  h.0 + 1,
  λ i. ground (
    arith,
    next_position_eq (λ (x : Chapter). x.video_id) (λ x. x.position) v h.0 db.chapters h.1,
    h.1 i,
  ),
)

count_found :
    (v k : ℕ) (rows : List Chapter) (x : Chapter)
    → chapter_of v k rows ≡ some x
    → 1 ≤ count_where (λ x. x.id == k) rows
unfolding chapter_of count_where
count_found v k [] x h = cc
count_found v k (y ∷ rows) x h = ground (arith, count_found v k rows x)

-- The chapter that a video has under an id is the row with that id.
chapter_of-found :
    (v k : ℕ) (rows : List Chapter) (x : Chapter)
    → count_where (λ x. x.id == k) rows ≤ 1
    → chapter_of v k rows ≡ some x
    → (find_first (λ (x : Chapter). x.id == k) rows ≡ some x) × (x.video_id ≡ v)
unfolding chapter_of count_where
chapter_of-found v k [] x one h = cc
chapter_of-found v k (y ∷ rows) x one h = elim (Bool-cases (y.id == k)) [
  | inl e ↦ elim (Bool-cases (y.video_id == v)) [
    | inl e' ↦
        let same : y ≡ x = ground (arith, e, e', h) in
        (ground (arith, e, same), rw (sym same) (ground (arith, e')))
    | inr e' ↦
        let later : chapter_of v k rows ≡ some x = ground (arith, e, e', h) in
        let twice = count_found v k rows x later in elim (too_many e twice) [ ]
  ]
  | inr e ↦
      let later : chapter_of v k rows ≡ some x = ground (arith, e, h) in
      let few : count_where (λ x. x.id == k) rows ≤ 1 = ground (arith, e, one) in
      let rest = chapter_of-found v k rows x few later in (ground (arith, e, rest.0), rest.1)
]
  where
    too_many : (y.id == k) ≡ true → 1 ≤ count_where (λ x. x.id == k) rows → ⊥
    too_many e twice = ground (arith, e, one)

delete-IsShown :
    (v k : ℕ) (x : Chapter) (db : ChapterTables)
    → HasEachId db.chapters
    → chapter_of v k db.chapters ≡ some x
    → IsShown v db.chapters
    → IsShown v (delete_rows v k x.position db).chapters
unfolding delete_rows close_up without_chapter
delete-IsShown v k x db one found h = (
  h.0 - 1,
  λ i.
      let left = keep_if (λ y. not (y.id == k)) db.chapters in
      let (there, own) = chapter_of-found v k db.chapters x (one k) found in
      let closed =
        placed_closed (λ y. y.video_id) (λ y. y.position)
          (λ y. record y { position = y.position - 1 }) (λ y. refl) (λ y. refl) v x.position i
          left in
      ground (
        arith,
        closed,
        gone there i,
        gone there (i + 1),
        gone there x.position,
        h.1 i,
        h.1 (i + 1),
        h.1 x.position,
        own,
      ),
)
  where
    gone :
        find_first (λ (y : Chapter). y.id == k) db.chapters ≡ some x
        → (j : ℕ)
        → placed (λ y. y.video_id) (λ y. y.position) v j db.chapters
          ≡ placed
              (λ y. y.video_id)
              (λ y. y.position)
              v
              j
              (keep_if (λ y. not (y.id == k)) db.chapters)
            + (if (x.video_id == v) && (x.position == j) then 1 else 0)
    gone there j =
        placed_deleted (λ y. y.video_id) (λ y. y.position) (λ y. y.id == k) db.chapters x (one k)
          there v j

update-IsShown :
    (v k : ℕ) (d : ChapterUpdate) (rows : List Chapter)
    → IsShown v rows
    → IsShown v (update_where (λ x. x.id == k) (set_chapter d) rows)
unfolding set_chapter
update-IsShown v k d rows h = (
  h.0,
  λ i.
      placed_kept (λ x. x.video_id) (λ x. x.position) (λ x. x.id == k) (set_chapter d) (λ x. refl)
        (λ x. refl) v i rows
      ∙ h.1 i,
)

reorder-IsShown :
    (c : Choice) (v : ℕ) (ids : List ℕ) (rows : List Chapter)
    → HasEachId rows
    → has_duplicates ids ≡ false
    → same_set ids (chapter_ids v rows) ≡ true
    → IsShown v (chapters_in_order c v ids rows)
unfolding chapters_in_order chapter_ids put_chapter
reorder-IsShown c v ids rows one u same = (
  length ids,
  reorder_rows-IsNumbered (λ x. x.video_id) (λ x. x.position) (λ x. x.id) put_chapter (λ i x. refl)
      (λ i x. refl) c v ids rows u same
      (λ o k.
        omega
          (arith, one k, count_and-le (λ (x : Chapter). x.video_id == o) (λ x. x.id == k) rows)),
)

module _ (dbms : ChapterDbms) (v : ℕ) (db : ChapterTables) (one : HasEachId db.chapters)
    (h : IsShown v db.chapters) where
  create-IsShown :
      (id : ℕ) (d : ChapterCreate) → IsShown v (create_chapter dbms id v d db).1.chapters
  unfolding create_chapter
  create-IsShown id d = elim (Option-cases (live v db.videos)) [
    | inl e ↦ rw (e, create_chapter) h
    | inr (video, e) ↦ elim (Bool-cases (is_beyond video.duration d.start_time)) [
      | inl a ↦ rw (e, a, create_chapter) h
      | inr a ↦ elim (Bool-cases (leb max_chapters_per_video (chapter_count v db.chapters))) [
        | inl b ↦ rw (e, a, b, create_chapter) h
        | inr b ↦ elim (Bool-cases dbms.locks_aggregates) [
          | inl l ↦ rw (e, a, b, l, create_chapter) (insert-IsShown id v d db h)
          | inr l ↦ rw (e, a, b, l, create_chapter) h
        ]
      ]
    ]
  ]

  edit-IsShown : (k : ℕ) (d : ChapterUpdate) → IsShown v (update_chapter v k d db).1.chapters
  unfolding update_chapter
  edit-IsShown k d = elim (Option-cases (chapter_of v k db.chapters)) [
    | inl e ↦ rw (e, update_chapter) h
    | inr (x, e) ↦
        elim (Bool-cases
          (starts_beyond (fetch (λ (y : ChapteredVideo). y.id) v db.videos) d.start_time)) [
            | inl a ↦ rw (e, a, update_chapter) h
            | inr a ↦ elim (Bool-cases (ends_early d.end_time (or_old d.start_time x.start_time))) [
              | inl b ↦ rw (e, a, b, update_chapter) h
              | inr b ↦ elim (Bool-cases (is_timed (set_chapter d x))) [
                | inl t ↦ rw (e, a, b, t, update_chapter) (update-IsShown v k d db.chapters h)
                | inr t ↦ rw (e, a, b, t, update_chapter) h
              ]
            ]
          ]
  ]

  remove-IsShown : (k : ℕ) → IsShown v (delete_chapter dbms v k db).1.chapters
  unfolding delete_chapter
  remove-IsShown k = elim (Option-cases (chapter_of v k db.chapters)) [
    | inl e ↦ rw (e, delete_chapter) h
    | inr (x, e) ↦
        elim (Bool-cases
          (dbms.stops (without_chapter k db) (close_up v x.position (without_chapter k db)))) [
            | inl s ↦ rw (e, s, delete_chapter) h
            | inr s ↦ rw (e, s, delete_chapter) (delete-IsShown v k x db one e h)
          ]
  ]

  permute-IsShown : (ids : List ℕ) → IsShown v (reorder_chapters dbms v ids db).1.chapters
  unfolding reorder_chapters
  permute-IsShown ids = elim (Bool-cases (has_duplicates ids)) [
    | inl u ↦ rw (u, reorder_chapters) h
    | inr u ↦ elim (Option-cases (live v db.videos)) [
      | inl e ↦ rw (u, e, reorder_chapters) h
      | inr (x, e) ↦ elim (Bool-cases (same_set ids (chapter_ids v db.chapters))) [
        | inr b ↦ rw (u, e, b, reorder_chapters) h
        | inl b ↦
            elim (Bool-cases
              (dbms.stops db.chapters (chapters_in_order dbms.choice v ids db.chapters))) [
                | inl s ↦ rw (u, e, b, s, reorder_chapters) h
                | inr s ↦
                    rw (u, e, b, s, reorder_chapters)
                      (reorder-IsShown dbms.choice v ids db.chapters one u b)
              ]
      ]
    ]
  ]

  -- Every request to create, update, delete or reorder chapters of a video, whatever it is answered
  -- and whatever the database refuses, leaves the chapters of the video at the positions 0, 1, ...,
  -- n - 1 for some n, one at each, if they were so before and the ids of the chapters are unique.
  pub serve_chapters-IsShown : (r : Request) → IsShown v (serve_chapters dbms v r db).chapters
  unfolding serve_chapters
  serve_chapters-IsShown (Request.create id d) = create-IsShown id d
  serve_chapters-IsShown (Request.edit k d) = edit-IsShown k d
  serve_chapters-IsShown (Request.delete k) = remove-IsShown k
  serve_chapters-IsShown (Request.reorder ids) = permute-IsShown ids
