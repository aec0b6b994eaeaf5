-- ===== src/Tests/AnalyticsCache.antt =====
-- api/analytics_cache.py on a full cache of two entries.
use vlog.Prelude.{ℕ, true, false, none, some, [], ◌∷◌, ◌≡◌, ◌-◌, refl, ltb, if◌then◌else◌}
use vlog.Prelude.Dicts.{get, put, delete}
use vlog.AnalyticsCache.Cache.{
  CacheEntry, AnalyticsCache, get_value, set_value, cleanup_expired, invalidate, clear, get_stats,
}
use vlog.AnalyticsCache.Lookup.{get_value-set_value}

abbrev entry : ℕ → ℕ → CacheEntry ℕ
entry value time = record { data_ = value; timestamp = time }

abbrev full : AnalyticsCache ℕ
full = record {
  cache = ("overview", entry 1 20) ∷ ("trends", entry 2 10) ∷ [];
  ttl = 60;
  enabled = true;
  max_size = 2;
}

program : Unit {0}
unfolding get_value set_value cleanup_expired invalidate clear get_stats get put delete
program = tt

-- The oldest entry makes room for a new key.
evicted :
    (set_value "videos" 3 false 30 30 30 full).cache
    ≡ ("overview", entry 1 20) ∷ ("videos", entry 3 30) ∷ []
unfolding program
evicted = refl

-- An expired entry goes before any is evicted.
swept_first :
    (set_value "videos" 3 false 75 75 75 full).cache
    ≡ ("overview", entry 1 20) ∷ ("videos", entry 3 75) ∷ []
unfolding program
swept_first = refl

expired : get_value "trends" 71 full ≡ (record full { cache = ("overview", entry 1 20) ∷ [] }, none)
unfolding program
expired = refl

counted : (get_stats full).entry_count ≡ 2
unfolding program
counted = refl

get_value-set_value_example :
    (get_value "videos" 91 (set_value "videos" 3 true 30 30 30 full)).1
    ≡ (if ltb 60 (91 - 30) then none else some 3)
get_value-set_value_example = get_value-set_value "videos" 3 true 30 30 30 91 full refl
