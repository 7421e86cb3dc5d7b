-- ===== src/Tests/Routines.antt =====
-- Runs of the routines of model/utils.
use virtual_people_core_serv.Prelude.{
  ℕ, ◌+◌, ◌-◌, ◌*◌, ◌%◌, ◌^◌, ◌≤◌, ◌<◌, ◌≢◌, ◌↔◌, ◌⊎◌, true, false, List, [], ◌∷◌, none, some, ok,
  map, pos, All, Any, no_matching_index, ◌≡◌, refl, arith, mul64, add64,
}
use virtual_people_core_serv.External.Events.{LabelerEvent}
use virtual_people_core_serv.Tests.Setup.{
  numbers, lengths, platform, messages, event_of, numbers-IsOrder, numbers-SqrtIsExact,
  numbers-RoundsMonotonically, ceil_sqrt, unary,
}
use virtual_people_core_serv.Utils.Feistel.{
  feistel_permute, half_of, feistel_rounds, round_hash, cycle_walk, feistel_pass,
}
use virtual_people_core_serv.Utils.Feistel.Bijection.{
  feistel_permute_total, feistel_permute-injective,
}
use virtual_people_core_serv.Utils.ConsistentHash.{
  jump_consistent_hash, next_jump, next_key, jump_loop,
}
use virtual_people_core_serv.Utils.ConsistentHash.Bounds.{
  jump_consistent_hash_total, jump_consistent_hash-consistent,
}
use virtual_people_core_serv.Utils.VirtualPersonSelector
use virtual_people_core_serv.Utils.VirtualPersonSelector.{
  VirtualPersonPool, VirtualPersonSelector, get_virtual_person_id,
}
use virtual_people_core_serv.Utils.VirtualPersonSelector.IdSpace.{nth_person, InSpace}
use virtual_people_core_serv.Utils.VirtualPersonSelector.Selection.{
  get_virtual_person_id-nth_person, get_virtual_person_id-before_pool,
}
use virtual_people_core_serv.Utils.DistributedConsistentHashing
use virtual_people_core_serv.Utils.DistributedConsistentHashing.{
  DistributionChoice, compute_xi, hash,
}
use virtual_people_core_serv.Utils.DistributedConsistentHashing.Selection.{hash-least}
use virtual_people_core_serv.Utils.DistributedConsistentHashing.Build.{
  build_iff, NonNegative, NearOne, divided, sum_from,
}
use virtual_people_core_serv.Utils.FieldFiltersMatcher.{get_first_match}
use virtual_people_core_serv.Utils.FieldFiltersMatcher.FirstMatch.{FirstAt, get_first_match-cases}
use virtual_people_core_serv.Utils.HashFieldMaskMatcher
use virtual_people_core_serv.Utils.HashFieldMaskMatcher.{
  HashFieldMaskMatcher, index_of, hash_labeler_event, get_match,
}
use virtual_people_core_serv.Utils.HashFieldMaskMatcher.Matching.{position, get_match-position}

half_square : half_of lengths numbers 10 * half_of lengths numbers 10 ≤ 100
unfolding half_of ceil_sqrt
half_square = omega arith

feistel_permute_total_example :
    (y : ℕ) × (feistel_permute lengths numbers 100 3 10 "seed" ≡ some y) × (y < 10)
feistel_permute_total_example =
    feistel_permute_total lengths numbers numbers-SqrtIsExact 10 (omega arith) "seed" 100 3
      (omega arith) half_square

feistel_permute_run : feistel_permute lengths numbers 100 3 10 "seed" ≡ some 0
unfolding feistel_permute cycle_walk feistel_pass add64 mul64 feistel_rounds half_of ceil_sqrt
    round_hash unary
feistel_permute_run = refl

feistel_permute-injective_example : ◌≡◌ {A = ℕ} 3 3
feistel_permute-injective_example =
    feistel_permute-injective lengths numbers numbers-SqrtIsExact 10 (omega arith) "seed" 100 100 3
      3 0 (omega arith) (omega arith) feistel_permute_run feistel_permute_run

jump_consistent_hash_total_example :
    (r : ℕ) × (jump_consistent_hash numbers 20 12345 (pos 10) ≡ some (pos r)) × (r < 10)
jump_consistent_hash_total_example =
    jump_consistent_hash_total numbers numbers-RoundsMonotonically 20 12345 10 (omega arith)
      (omega arith) (omega arith)

jump_run : jump_consistent_hash numbers 20 12345 (pos 10) ≡ some (pos 1)
unfolding jump_consistent_hash jump_loop next_jump next_key add64 mul64
jump_run = refl

jump_run_more : jump_consistent_hash numbers 30 12345 (pos 20) ≡ some (pos 1)
unfolding jump_consistent_hash jump_loop next_jump next_key add64 mul64
jump_run_more = refl

jump_consistent_hash-consistent_example : (◌≡◌ {A = ℕ} 1 1) ⊎ (10 ≤ 1)
jump_consistent_hash-consistent_example =
    jump_consistent_hash-consistent numbers numbers-RoundsMonotonically 20 30 12345 10 20 1 1
      (omega arith) (omega arith) (omega arith) jump_run jump_run_more

abbrev two_pools : List VirtualPersonPool
two_pools =
    record { population_offset = 1000; total_population = 4 }
    ∷ record { population_offset = 2000; total_population = 6 }
    ∷ []

abbrev selector : VirtualPersonSelector
selector = record {
  total_population = 10;
  pools =
      record { virtual_people_id_offset = 1000; population_index_offset = 0 }
      ∷ record { virtual_people_id_offset = 2000; population_index_offset = 4 }
      ∷ [];
}

selector_built : VirtualPersonSelector.build two_pools ≡ ok selector
unfolding VirtualPersonSelector.build VirtualPersonSelector.compile_pools add64
selector_built = refl

get_virtual_person_id-nth_person_example :
    (r : ℕ) × (jump_consistent_hash numbers 20 7 (pos 10) ≡ some (pos r))
    × (r < 10)
    × (get_virtual_person_id numbers 20 selector 7 ≡ nth_person two_pools r)
get_virtual_person_id-nth_person_example =
    get_virtual_person_id-nth_person numbers numbers-RoundsMonotonically two_pools selector
      selector_built (omega arith) (omega arith, (omega arith, tt)) 20 7 (omega arith)

abbrev large_pool : VirtualPersonPool
large_pool = record { population_offset = 1000; total_population = 2 ^ 31 }

abbrev large_selector : VirtualPersonSelector
large_selector = record {
  total_population = 2 ^ 31;
  pools = record { virtual_people_id_offset = 1000; population_index_offset = 0 } ∷ [];
}

large_selector_built : VirtualPersonSelector.build (large_pool ∷ []) ≡ ok large_selector
unfolding VirtualPersonSelector.build VirtualPersonSelector.compile_pools add64
large_selector_built = refl

get_virtual_person_id-before_pool_example :
    (get_virtual_person_id numbers 20 large_selector 7 ≡ some ((1000 + 2 ^ 64 - 1) % 2 ^ 64))
    × (¬ InSpace ((1000 + 2 ^ 64 - 1) % 2 ^ 64) (large_pool ∷ []))
get_virtual_person_id-before_pool_example =
    get_virtual_person_id-before_pool numbers large_pool large_selector 19 7 large_selector_built
      (omega arith) (omega arith) (omega arith)

abbrev choices : List (DistributionChoice numbers)
choices = record { choice_id = 0; probability = 0 } ∷ record { choice_id = 1; probability = 1 } ∷ []

hash-least_example :
    ((hash numbers lengths choices "seed" ≡ 0)
      × All (λ c. numbers.lt (compute_xi numbers lengths "seed" c) numbers.largest ≡ false) choices)
    ⊎ ((xi : ℕ) × (numbers.lt xi numbers.largest ≡ true)
        × Any
            (λ c.
              (c.choice_id ≡ hash numbers lengths choices "seed")
              × (compute_xi numbers lengths "seed" c ≡ xi))
            choices
        × All (λ c. numbers.lt (compute_xi numbers lengths "seed" c) xi ≡ false) choices)
hash-least_example = hash-least numbers lengths numbers-IsOrder "seed" choices

build_iff_example : (DistributedConsistentHashing.build numbers choices ≡ ok choices) ↔ (
    (choices ≢ [])
    × NonNegative numbers choices
    × NearOne numbers (sum_from numbers 0 choices)
    × (choices ≡ divided numbers (sum_from numbers 0 choices) choices))
build_iff_example = build_iff numbers choices choices

abbrev first : LabelerEvent platform
first = event_of 3 [] false none

abbrev second : LabelerEvent platform
second = event_of 5 [] false none

get_first_match-cases_example :
    ((get_first_match platform messages (4 ∷ 5 ∷ 5 ∷ []) second ≡ no_matching_index)
      × All (λ f. messages.is_match f second ≡ false) (4 ∷ 5 ∷ 5 ∷ []))
    ⊎ ((i : ℕ) × (get_first_match platform messages (4 ∷ 5 ∷ 5 ∷ []) second ≡ pos i)
        × FirstAt platform messages second (4 ∷ 5 ∷ 5 ∷ []) i)
get_first_match-cases_example = get_first_match-cases platform messages second (4 ∷ 5 ∷ 5 ∷ [])

abbrev matcher : HashFieldMaskMatcher platform messages
matcher = record { hashes = (5, 1) ∷ (3, 0) ∷ []; hash_field_mask = false }

matcher_built :
    HashFieldMaskMatcher.build platform messages (map some (first ∷ second ∷ [])) false ≡ ok matcher
unfolding HashFieldMaskMatcher.build HashFieldMaskMatcher.collect_hashes HashFieldMaskMatcher.find
    hash_labeler_event unary
matcher_built = refl

get_match-position_example :
    get_match platform messages matcher second
    ≡ index_of (
        position platform messages false
          (hash_labeler_event platform messages second false)
          (first ∷ second ∷ [])
          0)
get_match-position_example =
    get_match-position platform messages first (second ∷ []) false matcher second matcher_built
