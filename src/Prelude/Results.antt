-- ===== src/Prelude/Results.antt =====
-- absl::Status and absl::StatusOr: a result, or an error with its code and the fixed text of its
-- message. What a message prints of the offending value (StrCat, DebugString) is left out.
use mathlib.Core.Path.{◌≡◌, refl, subst}
use mathlib.Core.Bool.{Bool, true, false}
use mathlib.Core.Option.{Option, none, some}
use virtual_people_core_serv.Prelude.Tests.{if◌then◌else◌}

pub data Message : Type 0 where
  -- labeler.cc
  node_after_root duplicated_indexes no_root root_null nodes_not_in_tree : Message
  -- model_node.cc, attributes_updater.cc
  node_type_not_set update_not_set : Message
  -- branch_node_impl.cc
  child_not_provided no_child_node no_branch mixed_select_by no_select_by : Message
  updaters_and_multiplicity no_condition_matches no_select_option index_out_of_range : Message
  -- population_node_impl.cc, ranked_population_node_impl.cc
  beyond_cookie_monster activities_before_leaf : Message
  pools_not_single pool_size_zero pool_size_too_large ranked_exceeds_pool : Message
  no_population_pools no_matching_rank no_unranked_space invalid_unranked_mode : Message
  -- utils
  empty_population empty_distribution negative_probability not_summing_to_one : Message
  empty_quantum_label quantum_label_sizes empty_filters filter_invalid : Message
  empty_events null_event empty_hash_field_mask same_hash no_column_matcher : Message
  -- update matrices, conditional updaters, shredder
  no_row no_column probabilities_count no_column_attrs rows_not_aligned : Message
  no_column_matching row_out_of_range column_out_of_range : Message
  no_nodes no_condition no_update no_node_matching : Message
  no_assignments no_source_field no_target_field field_types_differ unsupported_type : Message
  field_invalid psi_out_of_range randomness_not_uint64 target_not_uint64 : Message
  target_not_set randomness_not_set : Message
  -- multiplicity_impl.cc
  no_multiplicity_ref no_person_index_field invalid_person_index_type : Message
  no_max_value no_cap_at_max no_random_seed exceeds_max negative_multiplicity : Message
  multiplicity_not_set invalid_extractor : Message
  -- model_serializer.cc
  uses_node_index child_not_set : Message
  -- vid_model_selector.cc
  model_line_invalid rollout_not_parented no_event_id : Message

-- `undefined` marks a call that C++ leaves undefined, such as a read out of range, and `out_of_fuel`
-- a loop of the model that stopped early; `undefined_arithmetic` marks an overflow of an int and a
-- conversion of a double to an integer type that does not hold it. None is a status of the program.
pub data Status : Type 0 where
  invalid_argument internal out_of_range : Message → Status
  undefined undefined_arithmetic out_of_fuel : Status

pub data Result {ℓ} (A : Type ℓ) : Type ℓ where
  ok : (value : A) → Result A
  err : (status : Status) → Result A

-- The value, or an error where there is none.
abbrev pub or_error {ℓ} : {A : Type ℓ} → Option A → Status → Result A
or_error (some value) status = ok value
or_error none status = err status

-- `if (!b) return error;`
abbrev pub guard : Bool → Status → Result (Unit {0})
guard holds status = elim holds [ true ↦ ok tt | false ↦ err status ]

-- ASSIGN_OR_RETURN.
infixl 5 ◌>>=◌ ◌>>◌
abbrev pub ◌>>=◌ {κ ℓ} : {B : Type κ} {A : Type ℓ} → Result B → (B → Result A) → Result A
err status >>= next = err status
ok value >>= next = next value

-- RETURN_IF_ERROR.
abbrev pub ◌>>◌ {ℓ} : {A : Type ℓ} → Result (Unit {0}) → Result A → Result A
checked >> next = checked >>= λ done. next

pub ok-injective {ℓ} : {A : Type ℓ} {a b : A} → ok a ≡ ok b → a ≡ b
ok-injective e = cc

-- A chain that succeeds has a first step that does.
pub >>=-eq-ok {κ ℓ} :
    {B : Type κ} {A : Type ℓ} (m : Result B) (next : B → Result A) {a : A}
    → (m >>= next) ≡ ok a
    → (b : B) × (m ≡ ok b) × (next b ≡ ok a)
>>=-eq-ok (err status) next e = cc
>>=-eq-ok (ok value) next e = (value, refl, e)

-- An error that the program means to report, or the undefined arithmetic that only the values of
-- doubles decide; any status at all.
abbrev pub IsReported : Status → Type 0
IsReported (invalid_argument m) = Unit
IsReported (out_of_range m) = Unit
IsReported (internal m) = ⊥
IsReported undefined = ⊥
IsReported undefined_arithmetic = Unit
IsReported out_of_fuel = ⊥

abbrev pub AnyStatus : Status → Type 0
AnyStatus status = Unit

abbrev pub ByCase {ℓ} : {A : Type ℓ} → (A → Type 0) → (Status → Type 0) → Result A → Type 0
ByCase Q E (ok value) = Q value
ByCase Q E (err status) = E status

-- A value with the one property, or an error with the other.
pub record Returns {ℓ} {A : Type ℓ} (Q : A → Type 0) (E : Status → Type 0) (r : Result A)
    : Type 0 where
  pub by_case : ByCase Q E r

-- A value, or a reported error.
abbrev pub Reported {ℓ} : {A : Type ℓ} → Result A → Type 0
Reported r = Returns (λ value. Unit) IsReported r

-- A function that ends with a value or a reported error.
abbrev pub Reports : {A B : Type 0} → (A → Result B) → Type 0
Reports {A} f = (a : A) → Reported (f a)

module _ {ℓ} {A : Type ℓ} {Q : A → Type 0} {E : Status → Type 0} where
  pub Returns-ok : (a : A) → Q a → Returns Q E (ok a)
  Returns-ok a q = record { by_case = q }

  pub Returns-err : (status : Status) → E status → Returns Q E (err status)
  Returns-err status e = record { by_case = e }

  pub Returns-or_error :
      (o : Option A) (status : Status)
      → E status
      → ((a : A) → o ≡ some a → Q a)
      → Returns Q E (or_error o status)
  Returns-or_error (some value) status e q = record { by_case = q value refl }
  Returns-or_error none status e q = record { by_case = e }

  pub Returns-if :
      (b : Bool) (x y : Result A)
      → (b ≡ true → Returns Q E x)
      → (b ≡ false → Returns Q E y)
      → Returns Q E (if b then x else y)
  Returns-if true x y h h' = h refl
  Returns-if false x y h h' = h' refl

  pub Returns-of_ok : (r : Result A) {a : A} → Returns Q E r → r ≡ ok a → Q a
  Returns-of_ok (ok value) q e = subst Q (ok-injective e) q.by_case
  Returns-of_ok (err status) q e = cc

  pub Returns->>= {ℓ'} :
      {B : Type ℓ'} {R : B → Type 0} (m : Result B) (next : B → Result A)
      → Returns R E m
      → ((b : B) → m ≡ ok b → R b → Returns Q E (next b))
      → Returns Q E (m >>= next)
  Returns->>= (ok value) next r step = step value refl r.by_case
  Returns->>= (err status) next r step = record { by_case = r.by_case }

pub Returns-mono {ℓ} :
    {A : Type ℓ} {Q Q' : A → Type 0} {E : Status → Type 0} (r : Result A)
    → Returns Q E r
    → ((a : A) → Q a → Q' a)
    → Returns Q' E r
Returns-mono (ok value) q h = record { by_case = h value q.by_case }
Returns-mono (err status) q h = record { by_case = q.by_case }

pub Returns-by_value {ℓ} :
    {A : Type ℓ} {Q : A → Type 0} (r : Result A)
    → ((a : A) → r ≡ ok a → Q a)
    → Returns Q AnyStatus r
Returns-by_value (ok value) h = record { by_case = h value refl }
Returns-by_value (err status) h = record { by_case = tt }

-- A step that may end with any status.
pub Returns->>=_any {ℓ ℓ'} :
    {B : Type ℓ} {A : Type ℓ'} {Q : A → Type 0} (m : Result B) (next : B → Result A)
    → ((b : B) → m ≡ ok b → Returns Q AnyStatus (next b))
    → Returns Q AnyStatus (m >>= next)
Returns->>=_any (ok value) next step = step value refl
Returns->>=_any (err status) next step = record { by_case = tt }

pub Returns-guard :
    (E : Status → Type 0) (holds : Bool) (status : Status)
    → E status
    → Returns (λ done. holds ≡ true) E (guard holds status)
Returns-guard E true status e = record { by_case = refl }
Returns-guard E false status e = record { by_case = e }

-- The rules for a reported error alone, for `search`.
module _ {ℓ} {A : Type ℓ} where
  pub Reported-ok : (a : A) → Reported (ok a)
  Reported-ok a = record { by_case = tt }

  pub Reported-invalid_argument : (m : Message) → Reported {A = A} (err (invalid_argument m))
  Reported-invalid_argument m = record { by_case = tt }

  pub Reported-out_of_range : (m : Message) → Reported {A = A} (err (out_of_range m))
  Reported-out_of_range m = record { by_case = tt }

  pub Reported-undefined_arithmetic : Reported {A = A} (err undefined_arithmetic)
  Reported-undefined_arithmetic = record { by_case = tt }

  pub Reported-or_error_arithmetic : (o : Option A) → Reported (or_error o undefined_arithmetic)
  Reported-or_error_arithmetic o = Returns-or_error o undefined_arithmetic tt (λ a e. tt)

  pub Reported-or_error : (o : Option A) (m : Message) → Reported (or_error o (invalid_argument m))
  Reported-or_error o m = Returns-or_error o (invalid_argument m) tt (λ a e. tt)

  pub Reported-if :
      (b : Bool) (x y : Result A) → Reported x → Reported y → Reported (if b then x else y)
  Reported-if b x y h h' = Returns-if b x y (λ e. h) (λ e. h')

  pub Reported->>= {ℓ'} :
      {B : Type ℓ'} (m : Result B) (next : B → Result A)
      → Reported m
      → ((b : B) → Reported (next b))
      → Reported (m >>= next)
  Reported->>= m next h h' = Returns->>= m next h (λ b e q. h' b)

pub Reported-guard : (holds : Bool) (m : Message) → Reported (guard holds (invalid_argument m))
Reported-guard true m = record { by_case = tt }
Reported-guard false m = record { by_case = tt }

pub Reported-guard_arithmetic : (holds : Bool) → Reported (guard holds undefined_arithmetic)
Reported-guard_arithmetic true = record { by_case = tt }
Reported-guard_arithmetic false = record { by_case = tt }

pub ruleset report_rules = (
  Reported-undefined_arithmetic, Reported-or_error_arithmetic, Reported-guard_arithmetic,
  Reported-ok, Reported-invalid_argument, Reported-out_of_range, Reported-or_error, Reported-if,
  Reported->>=, Reported-guard,
)
