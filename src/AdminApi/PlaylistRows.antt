-- ===== src/AdminApi/PlaylistRows.antt =====
-- -- What the statements of the playlist endpoints do to the rows of playlist_items.
use native.Mathlib.Decide.{ℕ_discrete}
use mathlib.Core.Path.{subst}
use vlog.Prelude.{
  ℕ, ◌+◌, ◌-◌, ◌≤◌, true, false, not, none, some, List, ◌∷◌, ◌≡◌, ◌≢◌, refl, sym, ◌∙◌, arith,
  find_first, keep_if, length,
}
use vlog.AdminApi.Positions.{count_where, next_position_eq, count-keep_if-le, count_not_found}
use vlog.AdminApi.Ids.{Choice, has_duplicates, same_set}
use vlog.AdminApi.Reordering.{reorder_rows-IsNumbered, count-reorder_rows, placed-reorder_other}
use vlog.AdminApi.Playlists.{
  PlaylistItem, is_item, shift_down, close_gap, set_position, reorder_items, item_videos,
}
use vlog.AdminApi.PlaylistMoves.{
  at_position, append_position, IsCompact, HasEachOnce, shift_down-IsNumbered, append-IsNumbered,
  take_out-IsNumbered, found_owner, IsOrdered, insert-HasEachOnce, shift_down-HasEachOnce,
  close_gap-HasEachOnce, shift_down_other, close_gap_other, deleted_other, insert_other,
}

-- One playlist is renumbered, the others keep their positions.
IsCompact-one :
    (p : ℕ) (items next : List PlaylistItem)
    → ((q : ℕ) → IsCompact q items)
    → IsCompact p next
    → ((q : ℕ) → q ≢ p → (i : ℕ) → at_position q i next ≡ at_position q i items)
    → (q : ℕ) → IsCompact q next
IsCompact-one p items next h one others q = elim (ℕ_discrete q p) [
  | yes e ↦ subst (λ k. IsCompact k next) (sym e) one
  | no ne ↦ ((h q).0, λ i. others q ne i ∙ (h q).1 i)
]

pub insert_at_end-IsOrdered :
    (now p v : ℕ) (items : List PlaylistItem)
    → find_first (is_item p v) items ≡ none
    → IsOrdered items
    → IsOrdered (
        record { playlist_id = p; video_id = v; position = append_position p items; added_at = now }
        ∷ items)
insert_at_end-IsOrdered now p v items fresh h = (
  insert-HasEachOnce now p v (append_position p items) items h.0
      (count_not_found (is_item p v) items fresh),
  IsCompact-one p items _ h.1 ((h.1 p).0 + 1, append-IsNumbered now p v (h.1 p).0 items (h.1 p).1)
      (λ q ne i. insert_other now p q v (append_position p items) i items ne),
)

pub insert_between-IsOrdered :
    (now p v at : ℕ) (items : List PlaylistItem)
    → at ≤ append_position p items
    → find_first (is_item p v) items ≡ none
    → IsOrdered items
    → IsOrdered (
        record { playlist_id = p; video_id = v; position = at; added_at = now }
        ∷ shift_down p at items)
insert_between-IsOrdered now p v at items le fresh h =
    let n = (h.1 p).0 in
    let low : at ≤ n =
      rw (sym (next_position_eq (λ x. x.playlist_id) (λ x. x.position) p n items (h.1 p).1)) le in
    let once : HasEachOnce (shift_down p at items) =
      λ q w. rw (shift_down-HasEachOnce p at items q w) (h.0 q w) in
    (
      insert-HasEachOnce now p v at (shift_down p at items) once
          (shift_down-HasEachOnce p at items p v ∙ count_not_found (is_item p v) items fresh),
      IsCompact-one p items _ h.1 (n + 1, shift_down-IsNumbered now p v at n items (h.1 p).1 low)
          (λ q ne i.
            insert_other now p q v at i (shift_down p at items) ne
            ∙ shift_down_other p q at items ne i),
    )

pub take_out-IsOrdered :
    (p v : ℕ) (item : PlaylistItem) (items : List PlaylistItem)
    → find_first (is_item p v) items ≡ some item
    → IsOrdered items
    → IsOrdered (close_gap p item.position (keep_if (λ x. not (is_item p v x)) items))
take_out-IsOrdered p v item items found h =
    let left = keep_if (λ x. not (is_item p v x)) items in
    let at = item.position in
    (
      λ q w.
          let fewer : count_where (is_item q w) left ≤ count_where (is_item q w) items =
            count-keep_if-le (is_item q w) (λ x. not (is_item p v x)) items in
          rw (close_gap-HasEachOnce p at left q w) (omega (arith, fewer, h.0 q w)),
      IsCompact-one p items _ h.1
          (
            (h.1 p).0 - 1,
            take_out-IsNumbered p v (h.1 p).0 item items (h.1 p).1 (h.0 p v) found
                (found_owner p v items item found),
          )
          (λ q ne i. close_gap_other p q at left ne i ∙ deleted_other p q v i items ne),
    )

pub reorder_items-IsOrdered :
    (c : Choice) (p : ℕ) (ids : List ℕ) (items : List PlaylistItem)
    → has_duplicates ids ≡ false
    → same_set ids (item_videos p items) ≡ true
    → IsOrdered items
    → IsOrdered (reorder_items c p ids items)
unfolding reorder_items item_videos set_position is_item
reorder_items-IsOrdered c p ids items u same h = (
  λ q w.
      rw
        (count-reorder_rows (λ x. x.playlist_id) (λ x. x.position) (λ x. x.video_id) set_position
          (λ i x. refl) (λ i x. refl) (is_item q w) (λ i x. refl) c p ids items)
        (h.0 q w),
  IsCompact-one p items _ h.1
      (
        length ids,
        reorder_rows-IsNumbered (λ x. x.playlist_id) (λ x. x.position) (λ x. x.video_id)
            set_position (λ i x. refl) (λ i x. refl) c p ids items u same h.0,
      )
      (λ q ne i.
        placed-reorder_other (λ x. x.playlist_id) (λ x. x.position) (λ x. x.video_id) set_position
          (λ i x. refl) (λ i x. refl) c p q ids ne i items),
)
