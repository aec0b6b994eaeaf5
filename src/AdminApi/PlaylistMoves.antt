-- ===== src/AdminApi/PlaylistMoves.antt =====
-- What each statement on playlist_items does to the positions of one playlist and of the others.
use native.Mathlib.Decide.{ℕ_discrete}
use vlog.Prelude.{
  ℕ, ◌+◌, ◌-◌, ◌≤◌, false, not, ◌&&◌, none, some, List, [], ◌∷◌, ◌==◌, leb, ltb, ◌≡◌, ◌≢◌, refl,
  sym, arith, if◌then◌else◌, find_first, keep_if, Bool-cases, inl, inr,
}
use vlog.AdminApi.Positions.{
  placed, next_position, IsNumbered, count_where, next_position_eq, placed_shifted, placed_closed,
  placed_other, placed_deleted, count-update_where,
}
use vlog.AdminApi.Ids.{has_duplicates}
use vlog.AdminApi.Playlists.{PlaylistItem, is_item, shift_down, close_gap, Request}

-- How many videos a playlist shows at a position.
abbrev pub at_position : ℕ → ℕ → List PlaylistItem → ℕ
at_position p i items = placed (λ x. x.playlist_id) (λ x. x.position) p i items

abbrev pub append_position : ℕ → List PlaylistItem → ℕ
append_position p items = next_position (λ x. x.playlist_id) (λ x. x.position) p items

-- The videos of every playlist stand at 0, 1, 2, ... without a gap.
abbrev pub IsCompact : ℕ → List PlaylistItem → Type 0
IsCompact p items = (n : ℕ) × IsNumbered (λ x. x.playlist_id) (λ x. x.position) p n items

-- A playlist has a video once.
abbrev pub HasEachOnce : List PlaylistItem → Type 0
HasEachOnce items = (p v : ℕ) → count_where (is_item p v) items ≤ 1

placed_after_shift :
    (p at i : ℕ) (items : List PlaylistItem)
    → at_position p i (shift_down p at items) ≡ (
        if ltb i at
        then at_position p i items
        else if i == at
        then 0
        else at_position p (i - 1) items)
unfolding shift_down
placed_after_shift p at i items =
    placed_shifted (λ x. x.playlist_id) (λ x. x.position)
      (λ x. record x { position = x.position + 1 }) (λ x. refl) (λ x. refl) p at i items

pub shift_down-IsNumbered :
    (now p v at n : ℕ) (items : List PlaylistItem)
    → IsNumbered (λ x. x.playlist_id) (λ x. x.position) p n items
    → at ≤ n
    → IsNumbered
        (λ x. x.playlist_id)
        (λ x. x.position)
        p
        (n + 1)
        (record { playlist_id = p; video_id = v; position = at; added_at = now }
          ∷ shift_down p at items)
unfolding placed
shift_down-IsNumbered now p v at n items h le i =
    ground (arith, placed_after_shift p at i items, h i, h (i - 1))

pub append-IsNumbered :
    (now p v n : ℕ) (items : List PlaylistItem)
    → IsNumbered (λ x. x.playlist_id) (λ x. x.position) p n items
    → IsNumbered
        (λ x. x.playlist_id)
        (λ x. x.position)
        p
        (n + 1)
        (record {
          playlist_id = p;
          video_id = v;
          position = append_position p items;
          added_at = now;
        }
          ∷ items)
unfolding placed
append-IsNumbered now p v n items h i =
    ground (arith, next_position_eq (λ x. x.playlist_id) (λ x. x.position) p n items h, h i)

pub take_out-IsNumbered :
    (p v n : ℕ) (item : PlaylistItem) (items : List PlaylistItem)
    → IsNumbered (λ x. x.playlist_id) (λ x. x.position) p n items
    → count_where (is_item p v) items ≤ 1
    → find_first (is_item p v) items ≡ some item
    → item.playlist_id ≡ p
    → IsNumbered
        (λ x. x.playlist_id)
        (λ x. x.position)
        p
        (n - 1)
        (close_gap p item.position (keep_if (λ x. not (is_item p v x)) items))
unfolding close_gap
take_out-IsNumbered p v n item items h one found own i =
    let left = keep_if (λ x. not (is_item p v x)) items in
    let closed =
      placed_closed (λ x. x.playlist_id) (λ x. x.position)
        (λ x. record x { position = x.position - 1 }) (λ x. refl) (λ x. refl) p item.position i
        left in
    ground (
      arith,
      closed,
      gone i,
      gone (i + 1),
      gone item.position,
      h i,
      h (i + 1),
      h item.position,
      own,
    )
  where
    gone :
        (j : ℕ)
        → at_position p j items
          ≡ at_position p j (keep_if (λ x. not (is_item p v x)) items)
            + (if (item.playlist_id == p) && (item.position == j) then 1 else 0)
    gone j =
        placed_deleted (λ x. x.playlist_id) (λ x. x.position) (is_item p v) items item one found p j

pub found_owner :
    (p v : ℕ) (items : List PlaylistItem) (item : PlaylistItem)
    → find_first (is_item p v) items ≡ some item
    → item.playlist_id ≡ p
unfolding is_item
found_owner p v [] item h = cc
found_owner p v (x ∷ xs) item h = elim (Bool-cases (is_item p v x)) [
  | inl e ↦ let q : x ≡ item = ground (arith, e, h) in rw (sym q) (ground (arith, e))
  | inr e ↦ found_owner p v xs item (ground (arith, e, h))
]

-- Every playlist shows its videos at 0, 1, 2, ..., each video once.
abbrev pub IsOrdered : List PlaylistItem → Type 0
IsOrdered items = HasEachOnce items × ((q : ℕ) → IsCompact q items)

-- The requests that keep the order: a position given to `add` is at most the one after the last,
-- and the ids of a reorder are distinct.
abbrev pub Fits : Request → List PlaylistItem → Type 0
Fits (Request.add p v none) items = Unit
Fits (Request.add p v (some at)) items = at ≤ append_position p items
Fits (Request.remove p v) items = Unit
Fits (Request.reorder p ids) items = has_duplicates ids ≡ false
Fits (Request.delete p) items = Unit

pub insert-HasEachOnce :
    (now p v at : ℕ) (items : List PlaylistItem)
    → HasEachOnce items
    → count_where (is_item p v) items ≡ 0
    → HasEachOnce (record { playlist_id = p; video_id = v; position = at; added_at = now } ∷ items)
unfolding count_where is_item
insert-HasEachOnce now p v at items h fresh q w = elim (ℕ_discrete p q) [
  | yes e ↦ elim (ℕ_discrete v w) [
    | yes e' ↦
        let absent : count_where (is_item q w) items ≡ 0 = rw (sym e, sym e') fresh in
        ground (arith, absent)
    | no ne ↦ ground (arith, h q w)
  ]
  | no ne ↦ ground (arith, h q w)
]

pub shift_down-HasEachOnce :
    (p at : ℕ) (items : List PlaylistItem) (q w : ℕ)
    → count_where (is_item q w) (shift_down p at items) ≡ count_where (is_item q w) items
unfolding shift_down is_item
shift_down-HasEachOnce p at items q w =
    count-update_where (is_item q w) (λ x. (x.playlist_id == p) && leb at x.position)
      (λ x. record x { position = x.position + 1 }) (λ x. refl) items

pub close_gap-HasEachOnce :
    (p at : ℕ) (items : List PlaylistItem) (q w : ℕ)
    → count_where (is_item q w) (close_gap p at items) ≡ count_where (is_item q w) items
unfolding close_gap is_item
close_gap-HasEachOnce p at items q w =
    count-update_where (is_item q w) (λ x. (x.playlist_id == p) && ltb at x.position)
      (λ x. record x { position = x.position - 1 }) (λ x. refl) items

-- Positions of another playlist are left alone.
pub shift_down_other :
    (p q at : ℕ) (items : List PlaylistItem)
    → q ≢ p
    → (i : ℕ) → at_position q i (shift_down p at items) ≡ at_position q i items
unfolding shift_down
shift_down_other p q at items ne i =
    placed_other (λ x. x.playlist_id) (λ x. x.position)
      (λ x. record x { position = x.position + 1 }) (λ x. refl)
      (λ x. (x.playlist_id == p) && leb at x.position) p q (λ x h. ground (arith, h)) ne i items

pub close_gap_other :
    (p q at : ℕ) (items : List PlaylistItem)
    → q ≢ p
    → (i : ℕ) → at_position q i (close_gap p at items) ≡ at_position q i items
unfolding close_gap
close_gap_other p q at items ne i =
    placed_other (λ x. x.playlist_id) (λ x. x.position)
      (λ x. record x { position = x.position - 1 }) (λ x. refl)
      (λ x. (x.playlist_id == p) && ltb at x.position) p q (λ x h. ground (arith, h)) ne i items

pub deleted_other :
    (p q v i : ℕ) (items : List PlaylistItem)
    → q ≢ p
    → at_position q i (keep_if (λ x. not (is_item p v x)) items) ≡ at_position q i items
unfolding placed is_item
deleted_other p q v i [] ne = refl
deleted_other p q v i (x ∷ xs) ne = ground (arith, ne, deleted_other p q v i xs ne)

pub insert_other :
    (now p q v at i : ℕ) (items : List PlaylistItem)
    → q ≢ p
    → at_position q i
        (record { playlist_id = p; video_id = v; position = at; added_at = now } ∷ items)
      ≡ at_position q i items
unfolding placed
insert_other now p q v at i items ne = ground (arith, ne)
