-- ===== src/Selector/Rollouts.antt =====
-- The messages ModelLine and ModelRollout, and the functions of
-- src/main/cc/wfa/virtual_people/core/selector/vid_model_selector.cc on them that read no cache.
pub mod Active
use Prim.Native.String.{String, len, find, slice, compare}
use Prim.Native.Nat.{Ordering}
use virtual_people_core_serv.Prelude.{
  ℕ, ◌+◌, Bool, true, false, not, List, [], ◌∷◌, ◌++◌, Option, none, some, Result, ok, err, ltb,
  if◌then◌else◌, invalid_argument, no_event_id, or_error,
}
use virtual_people_core_serv.External.Doubles.{Doubles}
use virtual_people_core_serv.External.Calendar.{Calendar, Date}
use virtual_people_core_serv.External.Events.{Platform, UserInfo, ProfileInfo, LabelerInput}

pub record GradualRolloutPeriod : Type 0 where
  pub start_date : Date
  pub end_date : Date

-- `instant_rollout_date` is read whether it is set or not: a date that is not set is 0-0-0.
pub record ModelRollout : Type 0 where
  pub name : String
  pub model_release : String
  pub gradual_rollout_period : Option GradualRolloutPeriod
  pub instant_rollout_date : Date
  pub rollout_freeze_date : Option Date

-- struct ModelReleasePercentile
pub record ModelReleasePercentile (D : Doubles) : Type 0 where
  pub end_percentile : D.Double
  pub model_release_resource_key : String

-- `==` of two texts.
unfoldable pub same_text : String → String → Bool
same_text s t = elim (compare s t) [ Ordering.eq ↦ true | _ ↦ false ]

-- std::string_view::find from a position on; `none` is npos.
unfoldable pub find_from : String → String → ℕ → Option ℕ
find_from input marker start =
    let rest = slice input start (len input) in
    if ltb (len rest) (find rest marker) then none else some (start + find rest marker)

-- ReadModelLine.
unfoldable pub read_model_line : String → String
read_model_line input = elim (find_from input "modelLines/" 0) [
  | none ↦ ""
  | some start ↦ elim (find_from input "/modelRollouts/" (start + len "modelLines/")) [
    | some end ↦ slice input (start + len "modelLines/") end
    | none ↦ slice input (start + len "modelLines/") (len input)
  ]
]

-- The user id of a field of the profile, where both are set.
unfoldable pub user_id_of : Option UserInfo → Option String
user_id_of none = none
user_id_of (some info) = info.user_id

-- The first of the ids that is set.
unfoldable pub first_id : List (Option String) → Option String
first_id [] = none
first_id (none ∷ ids) = first_id ids
first_id (some id ∷ ids) = some id

-- The chain of tests of GetEventId on the profile.
unfoldable pub profile_id : ProfileInfo → Option String
profile_id p = first_id (
    user_id_of p.email_user_info
    ∷ user_id_of p.phone_user_info
    ∷ user_id_of p.logged_in_id_user_info
    ∷ user_id_of p.logged_out_id_user_info
    ∷ user_id_of p.proprietary_id_space_1_user_info
    ∷ user_id_of p.proprietary_id_space_2_user_info
    ∷ user_id_of p.proprietary_id_space_3_user_info
    ∷ user_id_of p.proprietary_id_space_4_user_info
    ∷ user_id_of p.proprietary_id_space_5_user_info
    ∷ user_id_of p.proprietary_id_space_6_user_info
    ∷ user_id_of p.proprietary_id_space_7_user_info
    ∷ user_id_of p.proprietary_id_space_8_user_info
    ∷ user_id_of p.proprietary_id_space_9_user_info
    ∷ user_id_of p.proprietary_id_space_10_user_info
    ∷ [])

-- VidModelSelector::GetEventId. A profile hides the event id, even where it has no user id.
unfoldable pub get_event_id : {P : Platform} → LabelerInput P → Result String
get_event_id input = elim input.profile_info [
  | some profile ↦ or_error (profile_id profile) (invalid_argument no_event_id)
  | none ↦ elim input.event_id [
    | some event_id ↦ ok event_id.id
    | none ↦ err (invalid_argument no_event_id)
  ]
]

module _ {D : Doubles} (C : Calendar D) where
  -- DateToCivilDay.
  unfoldable pub date_to_civil_day : Date → C.CivilDay
  date_to_civil_day date = C.civil_day date.year date.month date.day

  -- GetTimeDifferenceInSeconds.
  unfoldable pub get_time_difference_in_seconds : C.CivilDay → C.CivilDay → D.Double
  get_time_difference_in_seconds date_1 date_2 =
      C.to_double_seconds (C.minus (C.from_civil date_2) (C.from_civil date_1))

  -- The first day of the rollout: that of its gradual period, or the instant one.
  unfoldable pub start_day : ModelRollout → C.CivilDay
  start_day rollout = elim rollout.gradual_rollout_period [
    | some period ↦ date_to_civil_day period.start_date
    | none ↦ date_to_civil_day rollout.instant_rollout_date
  ]

  unfoldable pub end_day : ModelRollout → C.CivilDay
  end_day rollout = elim rollout.gradual_rollout_period [
    | some period ↦ date_to_civil_day period.end_date
    | none ↦ date_to_civil_day rollout.instant_rollout_date
  ]

  unfoldable pub freeze_day : ModelRollout → C.CivilDay
  freeze_day rollout = elim rollout.rollout_freeze_date [
    | some date ↦ date_to_civil_day date
    | none ↦ C.max_day
  ]

  unfoldable pub has_rollout_freeze_date : ModelRollout → Bool
  has_rollout_freeze_date rollout = elim rollout.rollout_freeze_date [
    | some _ ↦ true
    | none ↦ false
  ]

  -- VidModelSelector::CompareModelRollouts.
  unfoldable pub compare_model_rollouts : ModelRollout → ModelRollout → Bool
  compare_model_rollouts lhs rhs = C.before (start_day lhs) (start_day rhs)

  -- `event_date_utc >= day`.
  unfoldable pub reached : C.CivilDay → C.CivilDay → Bool
  reached event_date_utc day = not (C.before event_date_utc day)

  -- VidModelSelector::CalculatePercentageAdoption.
  unfoldable pub calculate_percentage_adoption : C.CivilDay → ModelRollout → D.Double
  calculate_percentage_adoption event_date_utc rollout =
      let start = start_day rollout in
      let whole = get_time_difference_in_seconds start (end_day rollout) in
      if C.same_day start (end_day rollout)
      then D.ratio 11 10
      else if reached event_date_utc (freeze_day rollout)
      then D.div (get_time_difference_in_seconds start (freeze_day rollout)) whole
      else D.div (get_time_difference_in_seconds start event_date_utc) whole

  -- The loop of RetrieveActiveRollouts, from the last rollout to the first, before the reversal.
  unfoldable pub active_backwards : C.CivilDay → List ModelRollout → List ModelRollout
  active_backwards event_date_utc [] = []
  active_backwards event_date_utc (rollout ∷ earlier) =
      let rest = active_backwards event_date_utc earlier in
      if reached event_date_utc (end_day rollout)
      then rollout ∷ (if has_rollout_freeze_date rollout then rest else [])
      else if reached event_date_utc (start_day rollout)
      then rollout ∷ rest
      else rest

  unfoldable pub reverse : List ModelRollout → List ModelRollout
  reverse [] = []
  reverse (rollout ∷ rollouts) = reverse rollouts ++ (rollout ∷ [])

  -- RetrieveActiveRollouts on the sorted rollouts.
  unfoldable pub active_of_sorted : C.CivilDay → List ModelRollout → List ModelRollout
  active_of_sorted event_date_utc [] = []
  active_of_sorted event_date_utc (first ∷ rest) =
      if C.before event_date_utc (start_day first)
      then []
      else reverse (active_backwards event_date_utc (reverse (first ∷ rest)))

  -- VidModelSelector::RetrieveActiveRollouts.
  unfoldable pub retrieve_active_rollouts : List ModelRollout → C.CivilDay → List ModelRollout
  retrieve_active_rollouts rollouts event_date_utc =
      active_of_sorted event_date_utc (C.sort compare_model_rollouts rollouts)

  -- VidModelSelector::CalculatePercentages.
  unfoldable pub percentages_of : C.CivilDay → List ModelRollout → List (ModelReleasePercentile D)
  percentages_of event_date_utc [] = []
  percentages_of event_date_utc (rollout ∷ rollouts) =
      record {
        end_percentile = calculate_percentage_adoption event_date_utc rollout;
        model_release_resource_key = rollout.model_release;
      }
      ∷ percentages_of event_date_utc rollouts

  unfoldable pub calculate_percentages :
      List ModelRollout → C.CivilDay → List (ModelReleasePercentile D)
  calculate_percentages rollouts event_date_utc =
      percentages_of event_date_utc (retrieve_active_rollouts rollouts event_date_utc)
