-- ===== src/AnalyticsCache/Lookup.antt =====
-- api/analytics_cache.py: what `get` answers.
use text.Mathlib.Text.{◌==◌ as str_eq}
use vlog.Prelude.{
  ℕ, String, Bool, true, false, none, some, ◌≡◌, ◌≤◌, ◌-◌, ◌+◌, arith, if◌then◌else◌, ltb,
  Option-cases, inl, inr,
}
use vlog.Prelude.Dicts.{get, get-put, get-delete, get-delete_ne}
use vlog.AnalyticsCache.Capacity.{ready-IsSame}
use vlog.AnalyticsCache.Cache.{
  CacheEntry, AnalyticsCache, is_expired, get_entry, get_value, store, swept, roomy, set_value,
  clear, invalidate,
}

module _ {A : Type 0} where
  -- A value that was set with the cache enabled is what `get` answers until the TTL has passed, and
  -- from then on `get` answers none.
  pub get_value-set_value :
      (key : String) (value : A) (drawn : Bool) (t1 t2 now later : ℕ) (c : AnalyticsCache A)
      → c.enabled ≡ true
      → (get_value key later (set_value key value drawn t1 t2 now c)).1
        ≡ (if ltb c.ttl (later - now) then none else some value)
  unfolding get_value set_value store get_entry is_expired
  get_value-set_value key value drawn t1 t2 now later c h =
      let ready = roomy key t2 (swept drawn t1 c) in
      let same = ready-IsSame key drawn t1 t2 c in
      ground (
        arith,
        same.ttl,
        same.enabled,
        get-put key (record { data_ = value; timestamp = now }) ready.cache,
      )

  -- What `get` answers was stored under the key, no longer ago than the TTL.
  pub get_value-fresh :
      (key : String) (now : ℕ) (c : AnalyticsCache A) (v : A)
      → (get_value key now c).1 ≡ some v
      → (e : CacheEntry A) × (get key c.cache ≡ some e)
        × (e.data_ ≡ v)
        × (now ≤ e.timestamp + c.ttl)
  unfolding get_value get_entry is_expired
  get_value-fresh key now c v h = elim (Option-cases (get key c.cache)) [
    | inl e ↦ ground (arith, e)
    | inr e ↦ (e.0, e.1, ground (arith, e.1), ground (arith, e.1))
  ]

  -- After `invalidate` and after `clear`, `get` answers none for the key; `invalidate` leaves what
  -- is stored under another key.
  pub invalidate-get_value :
      (key other : String) (now : ℕ) (c : AnalyticsCache A)
      → str_eq other key ≡ false
      → ((get_value key now (invalidate key c)).1 ≡ none)
        × ((get_value key now (clear c)).1 ≡ none)
        × ((get_value other now (invalidate key c)).1 ≡ (get_value other now c).1)
  unfolding get_value invalidate clear get_entry get
  invalidate-get_value key other now c h =
      ground (arith, get-delete key c.cache, get-delete_ne key other c.cache h)
