-- ===== src/AnalyticsCache/Capacity.antt =====
-- api/analytics_cache.py: the number of entries.
use text.Mathlib.TextPositions.{eq_refl}
use vlog.Prelude.{
  ℕ, zero, All, All-map, String, Bool, true, false, suc, List, [], ◌∷◌, ◌≡◌, ◌∙◌, ◌≤◌, ◌<◌, ◌/◌,
  refl, arith, max, if◌then◌else◌, leb, length, take, is_some,
}
use vlog.Prelude.Dicts.{
  Dict, get, delete, length-delete-le, length-delete-lt, length-put-here, length-put-le,
}
use vlog.AnalyticsCache.Cache.{
  CacheEntry, AnalyticsCache, expired_keys, delete_all, cleanup_expired, insert_item, sort_items,
  keys_of, evict_oldest, make_room, needs_room, store, swept, roomy, set_value,
}

module _ {A : Type 0} where
  length-delete_all-le :
      (ks : List String) (d : Dict (CacheEntry A)) → length (delete_all ks d) ≤ length d
  unfolding delete_all
  length-delete_all-le [] d = omega arith
  length-delete_all-le (k ∷ ks) d =
      omega (arith, length-delete_all-le ks (delete k d), length-delete-le k d)

  either_All :
      (P : String → Type 0) (b : Bool) (xs ys : Dict (CacheEntry A))
      → All P (keys_of xs)
      → All P (keys_of ys)
      → All P (keys_of (if b then xs else ys))
  either_All P true xs ys h i = h
  either_All P false xs ys h i = i

  -- A property of every key holds of the sorted items' keys.
  insert_item-All :
      (P : String → Type 0) (k : String) (e : CacheEntry A) (items : Dict (CacheEntry A))
      → P k
      → All P (keys_of items)
      → All P (keys_of (insert_item (k, e) items))
  unfolding insert_item keys_of
  insert_item-All P k e [] p h = (p, tt)
  insert_item-All P k e ((m, y) ∷ rest) p h =
      either_All P (leb e.timestamp y.timestamp) ((k, e) ∷ (m, y) ∷ rest)
        ((m, y) ∷ insert_item (k, e) rest) (p, h) (h.0, insert_item-All P k e rest p h.1)

  sort_items-All :
      (P : String → Type 0) (d : Dict (CacheEntry A))
      → All P (keys_of d)
      → All P (keys_of (sort_items d))
  unfolding sort_items keys_of
  sort_items-All P [] h = tt
  sort_items-All P ((k, e) ∷ rest) h =
      insert_item-All P k e (sort_items rest) h.0 (sort_items-All P rest h.1)

  length-insert_item :
      (x : String × CacheEntry A) (items : Dict (CacheEntry A))
      → length (insert_item x items) ≡ suc (length items)
  unfolding insert_item
  length-insert_item x [] = refl
  length-insert_item x (y ∷ rest) = ground (arith, length-insert_item x rest)

  abbrev IsKey : Dict (CacheEntry A) → String → Type 0
  IsKey d k = is_some (get k d) ≡ true

  keys_of-All-IsKey : (d : Dict (CacheEntry A)) → All (IsKey d) (keys_of d)
  unfolding keys_of get
  keys_of-All-IsKey [] = tt
  keys_of-All-IsKey ((k, e) ∷ rest) = (
    ground (arith, eq_refl k),
    All-map (λ m h. ground arith) (keys_of rest) (keys_of-All-IsKey rest),
  )

  -- Deleting at least one of some keys shortens the dictionary.
  deletes_one :
      (d items : Dict (CacheEntry A)) (n : ℕ)
      → 1 ≤ n
      → 1 ≤ length items
      → All (IsKey d) (keys_of items)
      → length (delete_all (keys_of (take n items)) d) < length d
  unfolding delete_all keys_of
  deletes_one d [] n p q h = omega arith
  deletes_one d ((k, e) ∷ rest) zero p q h = omega arith
  deletes_one d ((k, e) ∷ rest) (suc n) p q h =
      omega
        (arith, length-delete_all-le (keys_of (take n rest)) (delete k d), length-delete-lt k d h.0)

  evict_oldest-lt : (d : Dict (CacheEntry A)) → 1 ≤ length d → length (evict_oldest d) < length d
  unfolding evict_oldest
  evict_oldest-lt [] h = omega arith
  evict_oldest-lt (x ∷ rest) h =
      let items = sort_items (x ∷ rest) in
      deletes_one (x ∷ rest) items (max 1 (length items / 10)) (omega arith)
        (omega (arith, length-insert_item x (sort_items rest)))
        (sort_items-All (IsKey (x ∷ rest)) (x ∷ rest) (keys_of-All-IsKey (x ∷ rest)))

  evict_oldest-max : (d : Dict (CacheEntry A)) → suc (length (evict_oldest d)) ≤ max 1 (length d)
  unfolding evict_oldest delete_all sort_items keys_of
  evict_oldest-max [] = omega arith
  evict_oldest-max (x ∷ rest) = omega (arith, evict_oldest-lt (x ∷ rest) (omega arith))

  cleanup_expired-le :
      (now : ℕ) (c : AnalyticsCache A) → length (cleanup_expired now c).0.cache ≤ length c.cache
  unfolding cleanup_expired
  cleanup_expired-le now c =
      ground (arith, length-delete_all-le (expired_keys c.ttl now c.cache) c.cache)

  -- The size bound: at least one entry fits, whatever the maximum.
  unfoldable pub Fits : AnalyticsCache A → Type 0
  Fits c = length c.cache ≤ max 1 c.max_size

  -- Nothing but the entries changes.
  pub record IsSame (c d : AnalyticsCache A) : Type 0 where
    pub ttl : d.ttl ≡ c.ttl
    pub enabled : d.enabled ≡ c.enabled
    pub max_size : d.max_size ≡ c.max_size

  cleanup_expired-IsSame : (now : ℕ) (c : AnalyticsCache A) → IsSame c (cleanup_expired now c).0
  unfolding cleanup_expired
  cleanup_expired-IsSame now c = record {
    ttl = ground arith;
    enabled = ground arith;
    max_size = ground arith;
  }

  swept-IsSame : (drawn : Bool) (now : ℕ) (c : AnalyticsCache A) → IsSame c (swept drawn now c)
  unfolding swept
  swept-IsSame true now c = cleanup_expired-IsSame now c
  swept-IsSame false now c = record { ttl = refl; enabled = refl; max_size = refl }

  make_room-IsSame : (now : ℕ) (c : AnalyticsCache A) → IsSame c (make_room now c)
  unfolding make_room
  make_room-IsSame now c =
      let h = cleanup_expired-IsSame now c in
      record {
        ttl = ground (arith, h.ttl);
        enabled = ground (arith, h.enabled);
        max_size = ground (arith, h.max_size);
      }

  roomy-IsSame : (key : String) (now : ℕ) (c : AnalyticsCache A) → IsSame c (roomy key now c)
  unfolding roomy
  roomy-IsSame key now c =
      let h = make_room-IsSame now c in
      record {
        ttl = ground (arith, h.ttl);
        enabled = ground (arith, h.enabled);
        max_size = ground (arith, h.max_size);
      }

  pub ready-IsSame :
      (key : String) (drawn : Bool) (t1 t2 : ℕ) (c : AnalyticsCache A)
      → IsSame c (roomy key t2 (swept drawn t1 c))
  ready-IsSame key drawn t1 t2 c =
      let h = swept-IsSame drawn t1 c in
      let i = roomy-IsSame key t2 (swept drawn t1 c) in
      record {
        ttl = i.ttl ∙ h.ttl;
        enabled = i.enabled ∙ h.enabled;
        max_size = i.max_size ∙ h.max_size;
      }

  make_room-lt :
      (now : ℕ) (c : AnalyticsCache A)
      → length c.cache ≤ max 1 c.max_size
      → length (make_room now c).cache < max 1 c.max_size
  unfolding make_room
  make_room-lt now c h =
      let cleaned = (cleanup_expired now c).0 in
      let shorter = cleanup_expired-le now c in
      let same = cleanup_expired-IsSame now c in
      ground (arith, shorter, same.max_size, evict_oldest-max cleaned.cache, h)

  store-Fits :
      (key : String) (value : A) (t2 now : ℕ) (c : AnalyticsCache A)
      → length c.cache ≤ max 1 c.max_size
      → length (store key value now (roomy key t2 c)).cache ≤ max 1 c.max_size
  unfolding store roomy needs_room
  store-Fits key value t2 now c h =
      let room = make_room-lt t2 c h in
      ground (
        arith,
        room,
        length-put-le key (record { data_ = value; timestamp = now }) (roomy key t2 c).cache,
        length-put-here key (record { data_ = value; timestamp = now }) c.cache,
      )

  swept-le :
      (drawn : Bool) (now : ℕ) (c : AnalyticsCache A)
      → length (swept drawn now c).cache ≤ length c.cache
  unfolding swept
  swept-le true now c = cleanup_expired-le now c
  swept-le false now c = omega arith

  -- `set` keeps the number of entries within the maximum size (within one, for a maximum of 0).
  pub set_value-Fits :
      (key : String) (value : A) (drawn : Bool) (t1 t2 now : ℕ) (c : AnalyticsCache A)
      → Fits c
      → Fits (set_value key value drawn t1 t2 now c)
  unfolding set_value Fits
  set_value-Fits key value drawn t1 t2 now c h =
      let le = swept-le drawn t1 c in
      let stored = store-Fits key value t2 now (swept drawn t1 c) in
      ground (arith, (swept-IsSame drawn t1 c).max_size)
