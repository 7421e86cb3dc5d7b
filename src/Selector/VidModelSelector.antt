-- ===== src/Selector/VidModelSelector.antt =====
-- src/main/cc/wfa/virtual_people/core/selector/vid_model_selector.cc: the selector with its cache. A
-- call gives the selector it leaves behind, whose cache alone has changed; the lock around the cache
-- makes each read of it one step.
pub mod Cached
pub mod Eviction
pub mod Selected
use Prim.Native.String.{String, ◌++◌}
use virtual_people_core_serv.Prelude.{
  ℕ, suc, ◌-◌, ◌^◌, ℤ, pos, negsuc, Bool, true, false, not, ◌&&◌, List, [], ◌∷◌, Option, none, some,
  Result, ok, err, ◌>>=◌, ◌>>◌, guard, ltb, leb, if◌then◌else◌, invalid_argument,
  model_line_invalid, rollout_not_parented,
}
use virtual_people_core_serv.External.Doubles.{Doubles}
use virtual_people_core_serv.External.Calendar.{Calendar}
use virtual_people_core_serv.External.Events.{Platform, LabelerInput}
use virtual_people_core_serv.Selector.LruCache
use virtual_people_core_serv.Selector.LruCache.{LruCache}
use virtual_people_core_serv.Selector.Rollouts.{
  ModelRollout, ModelReleasePercentile, same_text, read_model_line, get_event_id,
  calculate_percentages,
}

-- kCacheSize
abbrev pub cache_size : ℕ
cache_size = 60

-- static_cast<int64_t> of a uint64_t.
unfoldable pub to_int64 : ℕ → ℤ
to_int64 n = if ltb n (2 ^ 63) then pos n else negsuc (2 ^ 64 - suc n)

module _ (P : Platform) (C : Calendar P.doubles) where
  pub record ModelLine : Type 0 where
    pub name : String
    pub active_start_time : C.Timestamp
    pub active_end_time : Option C.Timestamp

  pub record VidModelSelector : Type 0 where
    pub model_line : ModelLine
    pub model_rollouts : List ModelRollout
    pub lru_cache : LruCache C.CivilDay (List (ModelReleasePercentile P.doubles))

  -- The loop of Build over the rollouts.
  unfoldable pub check_parents : String → List ModelRollout → Result (Unit {0})
  check_parents model_line_id [] = ok tt
  check_parents model_line_id (rollout ∷ rollouts) = do
    guard (same_text (read_model_line rollout.name) model_line_id)
        (invalid_argument rollout_not_parented)
    check_parents model_line_id rollouts

  -- VidModelSelector::Build and the constructor.
  unfoldable pub build : ModelLine → List ModelRollout → Result VidModelSelector
  build model_line model_rollouts = do
    guard (not (same_text (read_model_line model_line.name) ""))
        (invalid_argument model_line_invalid)
    check_parents (read_model_line model_line.name) model_rollouts
    ok (record {
      model_line = model_line;
      model_rollouts = model_rollouts;
      lru_cache = LruCache.new cache_size;
    })

  -- VidModelSelector::ReadFromCache.
  unfoldable pub read_from_cache :
      VidModelSelector
      → C.CivilDay
      → Result (List (ModelReleasePercentile P.doubles) × VidModelSelector)
  read_from_cache s event_date_utc = read (LruCache.get C.same_day s.lru_cache event_date_utc)
    where
      read :
          Option (List (ModelReleasePercentile P.doubles))
            × LruCache C.CivilDay (List (ModelReleasePercentile P.doubles))
          → Result (List (ModelReleasePercentile P.doubles) × VidModelSelector)
      read (some percentages, cache) = ok (percentages, record s { lru_cache = cache })
      read (none, cache) = do
        let percentages = calculate_percentages C s.model_rollouts event_date_utc
        added ← LruCache.add C.same_day cache event_date_utc percentages
        ok (percentages, record s { lru_cache = added })

  -- Whether the event lies in the active period of the model line; without an end the period is
  -- open.
  unfoldable pub is_in_active_period : ModelLine → ℕ → Bool
  is_in_active_period line event_timestamp =
      leb (C.timestamp_to_microseconds line.active_start_time) event_timestamp
      && elim line.active_end_time [
        | some end ↦ ltb event_timestamp (C.timestamp_to_microseconds end)
        | none ↦ true
      ]

  -- static_cast<double>, the division by the largest int64_t, and std::abs.
  unfoldable pub reduced_event_id : String → String → P.doubles.Double
  reduced_event_id release event_id =
      elim (to_int64 (P.hashing.fingerprint64 (release ++ event_id))) [
        | pos n ↦ P.doubles.div (P.doubles.of_ℕ n) (P.doubles.of_ℕ (2 ^ 63 - 1))
        | negsuc n ↦
            P.doubles.neg
              (P.doubles.div (P.doubles.neg (P.doubles.of_ℕ (suc n))) (P.doubles.of_ℕ (2 ^ 63 - 1)))
      ]

  -- The loop of GetModelRelease, with the release selected so far.
  unfoldable pub select_release : String → List (ModelReleasePercentile P.doubles) → String → String
  select_release event_id [] selected = selected
  select_release event_id (percentage ∷ percentages) selected =
      select_release event_id percentages (
        if P.doubles.lt (reduced_event_id percentage.model_release_resource_key event_id)
          percentage.end_percentile
        then percentage.model_release_resource_key
        else selected)

  -- The rest of GetModelRelease once the percentages are read.
  unfoldable pub release_of :
      List (ModelReleasePercentile P.doubles) → LabelerInput P → Result (Option String)
  release_of [] input = ok none
  release_of (first ∷ rest) input = do
    event_id ← get_event_id input
    ok (some (select_release event_id (first ∷ rest) first.model_release_resource_key))

  -- VidModelSelector::GetModelRelease. The outer result is an error only where the read of the
  -- cache is undefined.
  unfoldable pub get_model_release :
      VidModelSelector → LabelerInput P → Result (Result (Option String) × VidModelSelector)
  get_model_release s input = elim (is_in_active_period s.model_line input.timestamp_usec) [
    | true ↦ do
      read ← read_from_cache s (C.day_of_micros input.timestamp_usec)
      ok (release_of read.0 input, read.1)
    | false ↦ ok (ok none, s)
  ]

  -- A sequence of calls on one selector, in the order in which they take the lock.
  unfoldable pub get_model_releases :
      VidModelSelector
      → List (LabelerInput P)
      → Result (List (Result (Option String)) × VidModelSelector)
  get_model_releases s [] = ok ([], s)
  get_model_releases s (input ∷ inputs) = do
    first ← get_model_release s input
    rest ← get_model_releases first.1 inputs
    ok (first.0 ∷ rest.0, rest.1)
