-- ===== src/Tests/Selecting.antt =====
-- Runs of the selector, over days that are numbers.
use virtual_people_core_serv.Prelude.{
  ℕ, ◌⊎◌, inl, inr, true, false, List, [], ◌∷◌, ◌++◌, none, some, ok, All, map, ◌≡◌, refl, sym,
  subst, arith, ltb, ◌==◌, ==_iff, if◌then◌else◌,
}
use virtual_people_core_serv.External.Events.{LabelerInput}
use virtual_people_core_serv.Tests.Days.{
  insert, insertion_sort, calendar, calendar-SameDayIsEquality, calendar-BeforeIsOrder,
  calendar-SortKeeps,
}
use virtual_people_core_serv.Tests.Setup.{numbers, platform}
use virtual_people_core_serv.Selector.Rollouts.Active.{active, retrieve_active_rollouts-active}
use virtual_people_core_serv.Selector.LruCache.{new, lookup, add, get, make_room, store}
use virtual_people_core_serv.Selector.Rollouts.{
  ModelRollout, ModelReleasePercentile, calculate_percentages, reached, start_day, end_day,
  retrieve_active_rollouts, has_rollout_freeze_date, read_model_line, active_backwards,
  date_to_civil_day, active_of_sorted, compare_model_rollouts, reverse, find_from, same_text,
}
use virtual_people_core_serv.Selector.VidModelSelector.{
  ModelLine, VidModelSelector, build, read_from_cache, get_model_releases, select_release,
  check_parents,
}
use virtual_people_core_serv.Selector.VidModelSelector.Cached.{
  IsCoherent, answer, read_from_cache-IsCoherent, get_model_releases-answer,
}
use virtual_people_core_serv.Selector.LruCache.Recency.{recent}
use virtual_people_core_serv.Selector.VidModelSelector.Eviction.{read_from_cache-recent}
use virtual_people_core_serv.Selector.VidModelSelector.Selected.{
  Stands, covers, retrieve_active_rollouts-started, select_release-last,
}

abbrev first_rollout : ModelRollout
first_rollout = record {
  name = "modelLines/a/modelRollouts/x";
  model_release = "r1";
  gradual_rollout_period = none;
  instant_rollout_date = record { year = 0; month = 0; day = 10 };
  rollout_freeze_date = none;
}

abbrev second_rollout : ModelRollout
second_rollout = record {
  name = "modelLines/a/modelRollouts/y";
  model_release = "r2";
  gradual_rollout_period = some (record {
    start_date = record { year = 0; month = 0; day = 12 };
    end_date = record { year = 0; month = 0; day = 20 };
  });
  instant_rollout_date = record { year = 0; month = 0; day = 0 };
  rollout_freeze_date = none;
}

abbrev rollouts : List ModelRollout
rollouts = second_rollout ∷ first_rollout ∷ []

abbrev line : ModelLine platform calendar
line = record { name = "modelLines/a"; active_start_time = 100; active_end_time = some 300 }

abbrev fresh : VidModelSelector platform calendar
fresh = record {
  model_line = line;
  model_rollouts = rollouts;
  lru_cache = record { cache_data = []; access_order = []; capacity = 60 };
}

fresh_built : build platform calendar line rollouts ≡ ok fresh
unfolding build same_text read_model_line find_from check_parents new
fresh_built = refl

abbrev request : ℕ → LabelerInput platform
request time = record {
  event_id = some (record { id = "event"; id_fingerprint = none });
  profile_info = none;
  timestamp_usec = time;
  rank_assignments = [];
  enable_debug_trace = false;
  input_rest = tt;
}

get_model_releases-answer_example :
    (s' : VidModelSelector platform calendar) × (get_model_releases platform calendar fresh
        (request 150 ∷ request 90 ∷ request 155 ∷ [])
      ≡ ok (
        map
            (answer platform calendar calendar-SameDayIsEquality line rollouts)
            (request 150 ∷ request 90 ∷ request 155 ∷ []),
        s',
      ))
    × IsCoherent platform calendar calendar-SameDayIsEquality s'
get_model_releases-answer_example =
    get_model_releases-answer platform calendar calendar-SameDayIsEquality line rollouts fresh
      (request 150 ∷ request 90 ∷ request 155 ∷ []) fresh_built

active_run : retrieve_active_rollouts calendar rollouts 15 ≡ first_rollout ∷ second_rollout ∷ []
unfolding retrieve_active_rollouts active_of_sorted insertion_sort insert compare_model_rollouts
    start_day date_to_civil_day reverse active_backwards reached end_day has_rollout_freeze_date
active_run = refl

abbrev one_rollout : List ModelRollout
one_rollout = first_rollout ∷ []

in_order :
    (x : ModelRollout)
    → Stands calendar x one_rollout
    → ltb (end_day calendar x) (start_day calendar x) ≡ false
unfolding start_day end_day date_to_civil_day
in_order x m = elim m [
  | inl e ↦ subst (λ y. ltb (end_day calendar y) (start_day calendar y) ≡ false) (sym e) refl
  | inr n ↦ absurd n
]

active_one : Stands calendar first_rollout (retrieve_active_rollouts calendar one_rollout 15)
unfolding retrieve_active_rollouts active_of_sorted insertion_sort insert start_day
    date_to_civil_day reverse active_backwards reached end_day has_rollout_freeze_date
active_one = inl refl

retrieve_active_rollouts-started_example :
    Stands calendar first_rollout one_rollout
    × (reached calendar 15 (start_day calendar first_rollout) ≡ true)
retrieve_active_rollouts-started_example =
    retrieve_active_rollouts-started calendar calendar-BeforeIsOrder calendar-SortKeeps one_rollout
      15 first_rollout in_order active_one

abbrev percentages : List (ModelReleasePercentile numbers)
percentages =
    record { end_percentile = 1; model_release_resource_key = "r1" }
    ∷ record { end_percentile = 0; model_release_resource_key = "r2" }
    ∷ []

select_release-last_example :
    (All (λ p. covers platform calendar "event" p ≡ false) percentages
      × (select_release platform calendar "event" percentages "r1" ≡ "r1"))
    ⊎ ((before : List (ModelReleasePercentile numbers)) × (p : ModelReleasePercentile numbers)
        × (after : List (ModelReleasePercentile numbers)) × (percentages ≡ before ++ (p ∷ after))
        × (covers platform calendar "event" p ≡ true)
        × All (λ q. covers platform calendar "event" q ≡ false) after
        × (select_release platform calendar "event" percentages "r1"
            ≡ p.model_release_resource_key))
select_release-last_example = select_release-last platform calendar "event" percentages "r1"

fresh-IsCoherent : IsCoherent platform calendar calendar-SameDayIsEquality fresh
unfolding lookup
fresh-IsCoherent = record {
  valid = record {
    order_distinct = tt;
    data_distinct = tt;
    keys_in_order = λ k m. m;
    order_in_keys = λ k m. m;
    size_same = refl;
    size_le = omega arith;
  };
  caches = λ k v h. cc;
  has_room = omega arith;
}

read_from_cache-IsCoherent_example :
    (s' : VidModelSelector platform calendar) × (read_from_cache platform calendar fresh 15
      ≡ ok (calculate_percentages calendar rollouts 15, s'))
    × IsCoherent platform calendar calendar-SameDayIsEquality s'
    × (s'.model_line ≡ line)
    × (s'.model_rollouts ≡ rollouts)
read_from_cache-IsCoherent_example =
    read_from_cache-IsCoherent platform calendar calendar-SameDayIsEquality fresh 15
      fresh-IsCoherent

abbrev warm : VidModelSelector platform calendar
warm = record fresh {
  lru_cache = record {
    cache_data = (15, calculate_percentages calendar rollouts 15) ∷ [];
    access_order = 15 ∷ [];
    capacity = 60;
  };
}

warm_run :
    read_from_cache platform calendar fresh 15
    ≡ ok (calculate_percentages calendar rollouts 15, warm)
unfolding read_from_cache get lookup add make_room store
warm_run = refl

read_from_cache-recent_example :
    15 ∷ [] ≡ recent {V = List (ModelReleasePercentile numbers)} ◌==◌ ==_iff fresh.lru_cache 15
read_from_cache-recent_example =
    read_from_cache-recent platform calendar calendar-SameDayIsEquality fresh warm 15
      (calculate_percentages calendar rollouts 15) fresh-IsCoherent warm_run

sorted_run :
    calendar.sort (compare_model_rollouts calendar) rollouts ≡ first_rollout ∷ second_rollout ∷ []
unfolding insertion_sort insert compare_model_rollouts start_day date_to_civil_day
sorted_run = refl

retrieve_active_rollouts-active_example : retrieve_active_rollouts calendar rollouts 15 ≡ (
    if calendar.before 15 (start_day calendar first_rollout)
    then []
    else active calendar 15 (first_rollout ∷ second_rollout ∷ []))
retrieve_active_rollouts-active_example =
    retrieve_active_rollouts-active calendar 15 first_rollout (second_rollout ∷ []) rollouts
      sorted_run
