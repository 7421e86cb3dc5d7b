-- ===== src/Tests/Setup.antt =====
-- Concrete doubles, hashes and messages: the doubles are the natural numbers, with a square root
-- rounded up, and the fingerprint of a text is its length.
use Prim.Native.String.{String, len, ◌++◌ as ◌+++◌}
use virtual_people_core_serv.Prelude.{
  ℕ, zero, suc, ◌+◌, ◌-◌, ◌*◌, ◌/◌, ◌^◌, ◌≤◌, ◌<◌, ◌≡◌, inl, inr, Bool, true, false, List, [], ◌∷◌,
  ◌++◌, refl, Option, none, some, arith, ltb, leb, ◌==◌, if◌then◌else◌, Bool-cases, subst, ok,
}
use native.Mathlib.Nat.{mul-le-mul_left, div-le_self, mul-one, le-div_iff_mul-le}
use virtual_people_core_serv.External.Doubles.{Doubles, IsOrder, SqrtIsExact, RoundsMonotonically}
use virtual_people_core_serv.External.Hashing.{Hashing}
use virtual_people_core_serv.External.Events.{Platform, LabelerEvent, LabelerInput, PoolAssignment}
use virtual_people_core_serv.External.Protobuf.{Protobuf, KeepsActivities, CppType}

-- The least r with n ≤ r * r.
unfoldable pub ceil_sqrt : ℕ → ℕ
ceil_sqrt zero = 0
ceil_sqrt (suc n) = let r = ceil_sqrt n in if leb (suc n) (r * r) then r else suc r

square_suc : (r : ℕ) → (suc r) * (suc r) ≡ r * r + (r + r + 1)
square_suc r = omega arith

ceil_sqrt-covers : (n : ℕ) → n ≤ ceil_sqrt n * ceil_sqrt n
unfolding ceil_sqrt
ceil_sqrt-covers zero = omega arith
ceil_sqrt-covers (suc n) =
    let ih = ceil_sqrt-covers n in let s = square_suc (ceil_sqrt n) in ground arith

ceil_sqrt-least : (n : ℕ) → 0 < n → (ceil_sqrt n - 1) * (ceil_sqrt n - 1) < n
unfolding ceil_sqrt
ceil_sqrt-least zero h = absurd (omega arith)
ceil_sqrt-least (suc zero) h = omega arith
ceil_sqrt-least (suc (suc n)) h =
    let ih = ceil_sqrt-least (suc n) (omega arith) in
    let r = ceil_sqrt (suc n) in
    elim (Bool-cases (leb (suc (suc n)) (r * r))) [
      | inl h ↦ rw (h, ceil_sqrt) (omega (arith, ih))
      | inr h ↦ rw (h, ceil_sqrt) (ground arith)
    ]

abbrev pub numbers : Doubles
numbers = record {
  Double = ℕ;
  lt = ltb;
  le = leb;
  eq = ◌==◌;
  ratio = λ n d. n / d;
  of_ℕ = λ n. n;
  to_ℕ = λ n. n;
  add = ◌+◌;
  sub = ◌-◌;
  mul = ◌*◌;
  div = ◌/◌;
  neg = λ n. n;
  to_int = λ n. if ltb n (2 ^ 31) then some n else none;
  to_uint64 = λ n. if ltb n (2 ^ 64) then some n else none;
  log = λ n. n;
  log_float = λ n. n;
  sqrt = ceil_sqrt;
  ceil = λ n. n;
  floor = λ n. n;
  largest = 2 ^ 64;
}

le→leb : (a b : ℕ) → a ≤ b → leb a b ≡ true
le→leb a b h = ground arith

leb→le : (a b : ℕ) → leb a b ≡ true → a ≤ b
leb→le a b h = ground arith

div_pos : (n k : ℕ) → 0 < k → k ≤ n → 1 ≤ n / k
div_pos n k h le = (le-div_iff_mul-le h).1 (omega arith)

pub numbers-IsOrder : IsOrder numbers
numbers-IsOrder = record { lt_irrefl = λ a. ground arith; lt_trans = λ a b c h h'. ground arith }

pub numbers-SqrtIsExact : SqrtIsExact numbers
numbers-SqrtIsExact = record {
  ceil_sqrt_covers = λ n h. ceil_sqrt-covers n;
  ceil_sqrt_least = λ n h pos. ceil_sqrt-least n pos;
}

pub numbers-RoundsMonotonically : RoundsMonotonically numbers
numbers-RoundsMonotonically = record {
  div_bounds =
      λ n k h le small. (le→leb 1 (n / k) (div_pos n k h le), le→leb (n / k) n (div-le_self n k));
  mul_bounds = λ a m q small small' h h'. (
    le→leb a (a * q) (subst (λ x. x ≤ a * q) (mul-one a) (mul-le-mul_left a (leb→le 1 q h))),
    le→leb (a * q) (a * m) (mul-le-mul_left a (leb→le q m h')),
  );
  trunc_ge = λ a b x small small' h h'. ground arith;
}

-- A text as long as the number.
unfoldable pub unary : ℕ → String
unary zero = ""
unary (suc n) = "1" +++ unary n

abbrev pub lengths : Hashing
lengths = record { fingerprint64 = len; decimal = unary; decimal_ℤ = λ z. "" }

abbrev pub platform : Platform
platform = record {
  doubles = numbers;
  hashing = lengths;
  Label = ℕ;
  empty_label = 0;
  merge_label = λ a b. a + b;
  EventRest = ℕ;
  empty_rest = 0;
  InputRest = Unit;
}

abbrev pub event_of :
    ℕ → List PoolAssignment → Bool → Option (LabelerInput platform) → LabelerEvent platform
event_of fingerprint pools pass_one input = record {
  labeler_input = input;
  acting_fingerprint = fingerprint;
  pool_identity_mode = pass_one;
  virtual_person_activities = [];
  pool_assignments = pools;
  quantum_labels = none;
  label = none;
  event_rest = 0;
}

-- An event whose input has one rank, in the pool with the offset.
abbrev pub ranked_event : ℕ → ℕ → ℕ → LabelerEvent platform
ranked_event fingerprint offset rank = event_of fingerprint [] false (
    some (record {
      event_id = none;
      profile_info = none;
      timestamp_usec = 0;
      rank_assignments = record { pool_offset = offset; local_rank = rank } ∷ [];
      enable_debug_trace = false;
      input_rest = tt;
    }))

-- A filter is a number, which an event with that acting fingerprint matches; a mask keeps the acting
-- fingerprint.
abbrev pub messages : Protobuf platform
messages = record {
  merge_event = λ a b. record a {
    acting_fingerprint = a.acting_fingerprint + b.acting_fingerprint;
    virtual_person_activities = a.virtual_person_activities ++ b.virtual_person_activities;
  };
  Field = CppType;
  get_field = λ name. ok CppType.uint64;
  cpp_type = λ f. f;
  Value = ℕ;
  get_value = λ e f. some e.acting_fingerprint;
  set_value = λ e f v. record e { acting_fingerprint = v };
  value_of_ℕ = λ n. n;
  ℕ_of_value = λ n. n;
  double_of_value = λ n. n;
  FieldFilterProto = ℕ;
  FieldFilter = ℕ;
  new_filter = λ n. ok n;
  new_event_filter = λ e. ok e.acting_fingerprint;
  is_match = λ f e. e.acting_fingerprint == f;
  FieldMask = Bool;
  has_no_path = λ m. m;
  masked_text = λ e m. unary e.acting_fingerprint;
  print_text = λ e. unary e.acting_fingerprint;
}

pub messages-KeepsActivities : KeepsActivities messages
messages-KeepsActivities = record {
  merge_activities = λ event part. refl;
  set_activities = λ event f value. refl;
}
