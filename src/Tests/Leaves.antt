-- ===== src/Tests/Leaves.antt =====
-- Runs of a ranked population node, a conditional merge and the fingerprints.
use virtual_people_core_serv.Model.PopulationNode.{add_activity}
use virtual_people_core_serv.Utils.Feistel.{
  cycle_walk, feistel_pass, feistel_permute, feistel_rounds, half_of, round_hash,
}
use virtual_people_core_serv.Prelude.{
  ℕ, ◌+◌, ◌^◌, ◌≢◌, ◌⊎◌, false, [], ◌∷◌, Option, none, some, ok, err, All, ◌≡◌, refl, arith,
  invalid_argument, no_node_matching, get_elem?, if◌then◌else◌, mul64, add64,
}
use virtual_people_core_serv.External.Events.{LabelerEvent, LabelerInput}
use virtual_people_core_serv.Labeler.Label.{set_fingerprints}
use virtual_people_core_serv.Labeler.Label.Fingerprints.{
  EventIdHasFingerprint, ProfileHasFingerprints, set_fingerprints-HasFingerprints,
}
use virtual_people_core_serv.External.Events.{UserInfo, ProfileInfo, EventId}
use Prim.Native.String.{String}
use virtual_people_core_serv.Tests.Setup.{
  platform, messages, event_of, ranked_event, numbers-SqrtIsExact, numbers-RoundsMonotonically,
  unary, ceil_sqrt,
}
use virtual_people_core_serv.Utils.FieldFiltersMatcher.FirstMatch.{FirstAt}
use virtual_people_core_serv.Model.RankedPopulationNode
use virtual_people_core_serv.Model.RankedPopulationNode.{
  RankedPopulationNode, RankedPopulationNodeImpl, disjoint, full_pool, ranked_id, unranked_id,
}
use virtual_people_core_serv.Model.RankedPopulationNode.Ids.{
  IsValid, Within, build-IsValid, ranked_id-Within, unranked_id-disjoint, unranked_id-full_pool,
}
use virtual_people_core_serv.Model.RankedPopulationNode.Collisions.{
  HasRank, apply-collision_free, disjoint-apart,
}
use virtual_people_core_serv.Model.ConditionalMerge
use virtual_people_core_serv.Model.ConditionalMerge.{ConditionalMergeImpl}
use virtual_people_core_serv.Model.ConditionalMerge.Update.{update-cases}

abbrev config : RankedPopulationNode
config = record {
  pools = record { population_offset = 1000; total_population = 20 } ∷ [];
  random_seed = "seed";
  ranked_size = 10;
  unranked_mode = disjoint;
}

abbrev pub leaf : RankedPopulationNodeImpl
leaf = record {
  random_seed = "seed";
  ranked_size = 10;
  unranked_mode = disjoint;
  pool_offset = 1000;
  pool_size = 20;
}

abbrev pub fuel : ℕ
fuel = 2 ^ 32

leaf_built : RankedPopulationNode.build config ≡ ok leaf
unfolding RankedPopulationNode.build
leaf_built = refl

pub leaf-IsValid : IsValid leaf
leaf-IsValid = build-IsValid config leaf leaf_built (omega arith)

build-IsValid_example : IsValid leaf
build-IsValid_example = build-IsValid config leaf leaf_built (omega arith)

ranked_id-Within_example : Within 1000 (1000 + 10) (ranked_id platform fuel leaf 3)
ranked_id-Within_example =
    ranked_id-Within platform numbers-SqrtIsExact fuel (omega arith) leaf leaf-IsValid 3
      (omega arith)

unranked_id-disjoint_example :
    Within (1000 + 10) (1000 + 20) (unranked_id platform fuel leaf disjoint 77)
unranked_id-disjoint_example =
    unranked_id-disjoint platform numbers-RoundsMonotonically fuel (omega arith) leaf leaf-IsValid
      77 (omega arith)

unranked_id-full_pool_example :
    Within 1000 (1000 + 20) (unranked_id platform fuel leaf full_pool 77)
unranked_id-full_pool_example =
    unranked_id-full_pool platform numbers-RoundsMonotonically fuel (omega arith) leaf leaf-IsValid
      77

abbrev labeled : LabelerEvent platform
labeled = record (ranked_event 5 1000 3) {
  virtual_person_activities = record { virtual_person_id = some 1000; label = none } ∷ [];
}

leaf_run : RankedPopulationNode.apply platform fuel leaf (ranked_event 5 1000 3) ≡ ok labeled
unfolding RankedPopulationNode.apply RankedPopulationNode.find_rank RankedPopulationNode.select_id
    ranked_id feistel_permute cycle_walk feistel_pass add64 mul64 feistel_rounds half_of ceil_sqrt
    round_hash unary add_activity
leaf_run = refl

has :
    HasRank platform numbers-SqrtIsExact fuel
      (omega arith)
      leaf
      leaf-IsValid
      (ranked_event 5 1000 3)
      3
unfolding RankedPopulationNode.find_rank
has = (refl, omega arith)

apply-collision_free_example : ◌≡◌ {A = ℕ} 3 3
apply-collision_free_example =
    apply-collision_free platform numbers-SqrtIsExact fuel (omega arith) leaf leaf-IsValid
      (ranked_event 5 1000 3) (ranked_event 5 1000 3) labeled labeled 3 3 refl refl has has leaf_run
      leaf_run refl

ranked_run : ranked_id platform fuel leaf 3 ≡ ok 1000
unfolding ranked_id feistel_permute cycle_walk feistel_pass add64 mul64 feistel_rounds half_of
    ceil_sqrt round_hash unary
ranked_run = refl

disjoint-apart_example : unranked_id platform fuel leaf disjoint 77 ≢ ok 1000
disjoint-apart_example =
    disjoint-apart platform numbers-SqrtIsExact fuel (omega arith) leaf leaf-IsValid
      numbers-RoundsMonotonically 3 1000 77 (omega arith) (omega arith) ranked_run

abbrev merge : ConditionalMergeImpl platform messages
merge = record {
  matcher = 4 ∷ 5 ∷ 5 ∷ [];
  updates = event_of 1 [] false none ∷ event_of 2 [] false none ∷ event_of 3 [] false none ∷ [];
  pass_through_non_matches = false;
}

abbrev pub merged : LabelerEvent platform
merged = event_of 5 [] false none

update-cases_example :
    (All (λ f. messages.is_match f merged ≡ false) merge.matcher
      × (ConditionalMerge.update platform messages merge merged ≡ (
          if merge.pass_through_non_matches
          then ok merged
          else err (invalid_argument no_node_matching))))
    ⊎ ((i : ℕ) × (part : LabelerEvent platform) × FirstAt platform messages merged merge.matcher i
        × (get_elem? merge.updates i ≡ some part)
        × (ConditionalMerge.update platform messages merge merged
            ≡ ok (messages.merge_event merged part)))
update-cases_example = update-cases platform messages merge merged refl

abbrev user : String → Option UserInfo
user id = some (record { user_id = some id; user_id_fingerprint = none })

abbrev with_profile : LabelerInput platform
with_profile = record {
  event_id = some (record { id = "event"; id_fingerprint = none });
  profile_info = some (record {
    email_user_info = user "email";
    phone_user_info = user "phone";
    logged_in_id_user_info = none;
    logged_out_id_user_info = none;
    proprietary_id_space_1_user_info = user "one";
    proprietary_id_space_2_user_info = none;
    proprietary_id_space_3_user_info = none;
    proprietary_id_space_4_user_info = none;
    proprietary_id_space_5_user_info = none;
    proprietary_id_space_6_user_info = none;
    proprietary_id_space_7_user_info = none;
    proprietary_id_space_8_user_info = none;
    proprietary_id_space_9_user_info = none;
    proprietary_id_space_10_user_info =
        some (record { user_id = none; user_id_fingerprint = some 7 });
  });
  timestamp_usec = 0;
  rank_assignments = [];
  enable_debug_trace = false;
  input_rest = tt;
}

set_fingerprints-HasFingerprints_example :
    (event_id : Option EventId) × (profile : Option ProfileInfo) × (acting : ℕ)
    × EventIdHasFingerprint platform with_profile.event_id event_id 5 acting
    × ProfileHasFingerprints platform with_profile.profile_info profile
    × (set_fingerprints platform merged with_profile ≡ record merged {
      labeler_input = some (record with_profile { event_id = event_id; profile_info = profile });
      acting_fingerprint = acting;
    })
set_fingerprints-HasFingerprints_example =
    set_fingerprints-HasFingerprints platform merged with_profile
