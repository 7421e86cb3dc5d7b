-- ===== src/Selector/VidModelSelector/Eviction.antt =====
-- Which days the cache of a selector holds after a read.
use virtual_people_core_serv.Prelude.{
  List, ok, ◌≡◌, sym, ap, ◌∙◌, inl, inr, >>=-eq-ok, ok-injective, Option-cases,
}
use virtual_people_core_serv.External.Calendar.{Calendar, SameDayIsEquality}
use virtual_people_core_serv.External.Events.{Platform}
use virtual_people_core_serv.Selector.LruCache.{lookup, add, get}
use virtual_people_core_serv.Selector.LruCache.Invariant.{lookup-none}
use virtual_people_core_serv.Selector.LruCache.Recency.{recent, add-recent, get-recent}
use virtual_people_core_serv.Selector.Rollouts.{ModelReleasePercentile, calculate_percentages}
use virtual_people_core_serv.Selector.VidModelSelector.{VidModelSelector, read_from_cache}
use virtual_people_core_serv.Selector.VidModelSelector.Cached.{IsCoherent}

module _ (P : Platform) (C : Calendar P.doubles) (law : SameDayIsEquality C) where
  -- After ReadFromCache of a coherent selector for a day, the access order of its cache is that
  -- day in front of the order before without that day, cut to the capacity: what is evicted is
  -- the day that was used least recently. `==` of two days is equality.
  pub read_from_cache-recent :
      (s s' : VidModelSelector P C) (day : C.CivilDay)
      (percentages : List (ModelReleasePercentile P.doubles))
      → IsCoherent P C law s
      → read_from_cache P C s day ≡ ok (percentages, s')
      → s'.lru_cache.access_order ≡ recent C.same_day law.same_day_iff s.lru_cache day
  unfolding read_from_cache get
  read_from_cache-recent s s' day percentages coherent e =
      elim (Option-cases (lookup C.same_day day s.lru_cache.cache_data)) [
        | inr found ↦
            (let (v, h) = found in
              let e' = rw (h, read_from_cache, get) at e in
              let again =
                rw (h, get) at
                  (get-recent C.same_day law.same_day_iff s.lru_cache day v coherent.valid h) in
              sym (ap (λ r. r.1.lru_cache.access_order) (ok-injective e')) ∙ again)
        | inl h ↦
            (let e' = rw (h, read_from_cache, get) at e in
              let (added, stored, e₂) =
                >>=-eq-ok
                  (add C.same_day s.lru_cache day (calculate_percentages C s.model_rollouts day)) _
                  e' in
              sym (ap (λ r. r.1.lru_cache.access_order) (ok-injective e₂))
              ∙ add-recent C.same_day law.same_day_iff s.lru_cache added day
                  (calculate_percentages C s.model_rollouts day) coherent.valid coherent.has_room
                  (lookup-none C.same_day law.same_day_iff day s.lru_cache.cache_data h) stored)
      ]
