-- ===== src/AnalyticsCache/Cache.antt =====
-- api/analytics_cache.py: the class AnalyticsCache. Times are native numbers; a clock that went back
-- makes an entry zero seconds old, which is expired for no TTL, as a negative age is in the source.
use vlog.Prelude.{
  ℕ, String, Bool, false, Option, none, some, List, [], ◌∷◌, ◌-◌, ◌/◌, max, if◌then◌else◌, ltb, leb,
  length, take, is_some,
}
use vlog.Prelude.Dicts.{Dict, get, put, delete}

module _ (A : Type 0) where
  pub record CacheEntry : Type 0 where
    pub data_ : A
    pub timestamp : ℕ

  pub record AnalyticsCache : Type 0 where
    pub cache : Dict CacheEntry
    pub ttl : ℕ
    pub enabled : Bool
    pub max_size : ℕ

pub record Stats : Type 0 where
  pub enabled : Bool
  pub ttl_seconds : ℕ
  pub entry_count : ℕ
  pub max_size : ℕ

module _ {A : Type 0} where
  unfoldable pub is_expired : ℕ → ℕ → CacheEntry A → Bool
  is_expired ttl now e = ltb ttl (now - e.timestamp)

  -- The value of a cached entry, or its removal where it is expired.
  unfoldable pub get_entry :
      String → ℕ → Option (CacheEntry A) → AnalyticsCache A → AnalyticsCache A × Option A
  unfolding is_expired
  get_entry key now none c = (c, none)
  get_entry key now (some e) c =
      if is_expired c.ttl now e
      then (record c { cache = delete key c.cache }, none)
      else (c, some e.data_)

  unfoldable pub get_value : String → ℕ → AnalyticsCache A → AnalyticsCache A × Option A
  unfolding get_entry
  get_value key now c = if c.enabled then get_entry key now (get key c.cache) c else (c, none)

  unfoldable pub expired_keys : ℕ → ℕ → Dict (CacheEntry A) → List String
  unfolding is_expired
  expired_keys ttl now [] = []
  expired_keys ttl now ((k, e) ∷ rest) =
      let keys = expired_keys ttl now rest in if is_expired ttl now e then k ∷ keys else keys

  unfoldable pub delete_all : List String → Dict (CacheEntry A) → Dict (CacheEntry A)
  delete_all [] d = d
  delete_all (k ∷ rest) d = delete_all rest (delete k d)

  unfoldable pub cleanup_expired : ℕ → AnalyticsCache A → AnalyticsCache A × ℕ
  unfolding expired_keys delete_all
  cleanup_expired now c =
      let keys = expired_keys c.ttl now c.cache in
      if c.enabled then (record c { cache = delete_all keys c.cache }, length keys) else (c, 0)

  -- The items by timestamp, those of equal timestamps in their order: Python's `sorted`.
  unfoldable pub insert_item : String × CacheEntry A → Dict (CacheEntry A) → Dict (CacheEntry A)
  insert_item x [] = x ∷ []
  insert_item x (y ∷ rest) =
      let tail = insert_item x rest in
      if leb (x.1.timestamp) (y.1.timestamp) then x ∷ y ∷ rest else y ∷ tail

  unfoldable pub sort_items : Dict (CacheEntry A) → Dict (CacheEntry A)
  unfolding insert_item
  sort_items [] = []
  sort_items (x ∷ rest) = insert_item x (sort_items rest)

  unfoldable pub keys_of : Dict (CacheEntry A) → List String
  keys_of [] = []
  keys_of ((k, e) ∷ rest) = k ∷ keys_of rest

  -- The oldest tenth of the items goes, at least one.
  unfoldable pub evict_oldest : Dict (CacheEntry A) → Dict (CacheEntry A)
  unfolding sort_items keys_of delete_all
  evict_oldest d =
      let items = sort_items d in delete_all (keys_of (take (max 1 (length items / 10)) items)) d

  unfoldable pub make_room : ℕ → AnalyticsCache A → AnalyticsCache A
  unfolding cleanup_expired evict_oldest
  make_room now c =
      let cleaned = (cleanup_expired now c).0 in
      if leb cleaned.max_size (length cleaned.cache)
      then record cleaned { cache = evict_oldest cleaned.cache }
      else cleaned

  unfoldable pub needs_room : String → AnalyticsCache A → Bool
  needs_room key c = if is_some (get key c.cache) then false else leb c.max_size (length c.cache)

  unfoldable pub store : String → A → ℕ → AnalyticsCache A → AnalyticsCache A
  store key value now c = record c {
    cache = put key (record { data_ = value; timestamp = now }) c.cache;
  }

  -- By the random draw, a clean-up at the first time; room for a new key at the second.
  unfoldable pub swept : Bool → ℕ → AnalyticsCache A → AnalyticsCache A
  unfolding cleanup_expired
  swept drawn t1 c = if drawn then (cleanup_expired t1 c).0 else c

  unfoldable pub roomy : String → ℕ → AnalyticsCache A → AnalyticsCache A
  unfolding needs_room make_room
  roomy key t2 c = if needs_room key c then make_room t2 c else c

  -- The random draw, then the times at which the two clean-ups and the entry read the clock.
  unfoldable pub set_value : String → A → Bool → ℕ → ℕ → ℕ → AnalyticsCache A → AnalyticsCache A
  unfolding swept roomy store
  set_value key value drawn t1 t2 now c =
      if c.enabled then store key value now (roomy key t2 (swept drawn t1 c)) else c

  unfoldable pub clear : AnalyticsCache A → AnalyticsCache A
  clear c = record c { cache = [] }

  unfoldable pub invalidate : String → AnalyticsCache A → AnalyticsCache A
  invalidate key c =
      if is_some (get key c.cache) then record c { cache = delete key c.cache } else c

  unfoldable pub get_stats : AnalyticsCache A → Stats
  get_stats c = record {
    enabled = c.enabled;
    ttl_seconds = c.ttl;
    entry_count = length c.cache;
    max_size = c.max_size;
  }
