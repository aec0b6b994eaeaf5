-- ===== src/AdminApi/PlaylistSlugs.antt =====
-- `create_playlist` of api/admin.py against the slugs that are taken.
use vlog.Prelude.{
  ℕ, String, Bool, true, false, some, List, [], ◌∷◌, ◌≡◌, refl, sym, ◌∙◌, ap, arith, ◌&&◌, ◌==◌,
  find_first, update_where, is_some, is_none, Option-cases, inl, inr, ◌⊎◌,
}
use vlog.WorkerApi.Schema.{http_error, Reply}
use vlog.AdminApi.Playlists.{
  Playlist, Catalogue, live_playlist, has_slug, create_playlist, delete_playlist,
}

module _ {ℓ} {A : Type ℓ} (q : A → Bool) where
  find_first_also :
      (r : A → Bool) (xs : List A) (x : A)
      → find_first r xs ≡ some x
      → q x ≡ true
      → is_some (find_first q xs) ≡ true
  find_first_also r [] x h e = cc
  find_first_also r (y ∷ ys) x h e = ground (arith, find_first_also r ys x)

  find_first-update_where :
      (p : A → Bool) (f : A → A)
      → ((x : A) → q (f x) ≡ q x)
      → (xs : List A) → is_some (find_first q (update_where p f xs)) ≡ is_some (find_first q xs)
  find_first-update_where p f same [] = refl
  find_first-update_where p f same (x ∷ xs) =
      ground (arith, same x, find_first-update_where p f same xs)

-- Refused with one of the two codes, and nothing is changed.
abbrev pub IsRefused : Reply ℕ × Catalogue → Catalogue → Type 0
IsRefused r db = ((r.0 ≡ http_error 400) ⊎ (r.0 ≡ http_error 500)) × (r.1 ≡ db)

create-taken :
    (slugify : String → String) (now id : ℕ) (title : String) (db : Catalogue)
    → is_some (find_first (has_slug (slugify title)) db.playlists) ≡ true
    → IsRefused (create_playlist slugify now id title db) db
unfolding create_playlist
create-taken slugify now id title db h =
    elim (Option-cases
      (find_first (λ p. has_slug (slugify title) p && is_none p.deleted_at) db.playlists)) [
        | inr (x, e) ↦ rw (e, create_playlist) (inl refl, refl)
        | inl e ↦ elim (Option-cases (find_first (has_slug (slugify title)) db.playlists)) [
          | inr (x, e') ↦ rw (e, e', create_playlist) (inr refl, refl)
          | inl e' ↦ let gone : false ≡ true = sym (ap is_some e') ∙ h in cc
        ]
      ]

-- Once a playlist is deleted, a playlist whose title gives the same slug cannot be created: every
-- attempt is refused and changes nothing.
pub deleted_slug_taken :
    (slugify : String → String) (now later id p : ℕ) (title : String) (db : Catalogue)
    (x : Playlist)
    → live_playlist p db.playlists ≡ some x
    → has_slug (slugify title) x ≡ true
    → IsRefused
        (create_playlist slugify later id title (delete_playlist now p db).1)
        (delete_playlist now p db).1
unfolding delete_playlist live_playlist has_slug
deleted_slug_taken slugify now later id p title db x live same =
    create-taken slugify later id title (delete_playlist now p db).1 still
  where
    still :
        is_some (find_first (has_slug (slugify title)) (delete_playlist now p db).1.playlists)
        ≡ true
    still =
        rw (live, delete_playlist)
          (find_first-update_where (has_slug (slugify title)) (λ y. y.id == p)
              (λ y. record y { deleted_at = some now }) (λ y. refl) db.playlists
            ∙ find_first_also (has_slug (slugify title)) (λ y. (y.id == p) && is_none y.deleted_at)
                db.playlists x live same)
