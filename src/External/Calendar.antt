-- ===== src/External/Calendar.antt =====
-- absl's civil days and times and google::type::Date, and std::sort.
use virtual_people_core_serv.Prelude.{ℕ, Bool, true, false, List, ◌≡◌, ◌↔◌, Any}
use virtual_people_core_serv.External.Doubles.{Doubles}

-- Times are microseconds from the Unix epoch on.
pub record Calendar (D : Doubles) : Type 1 where
  pub CivilDay : Type 0
  -- `==` and `<` of absl::CivilDay.
  pub same_day : CivilDay → CivilDay → Bool
  pub before : CivilDay → CivilDay → Bool
  -- absl::CivilDay(year, month, day), and absl::CivilDay(absl::CivilSecond::max()).
  pub civil_day : ℕ → ℕ → ℕ → CivilDay
  pub max_day : CivilDay
  -- absl::ToCivilDay of absl::FromUnixMicros, in UTC.
  pub day_of_micros : ℕ → CivilDay
  -- absl::FromCivil in UTC, the difference of two times, and absl::ToDoubleSeconds.
  pub Time : Type 0
  pub from_civil : CivilDay → Time
  pub Duration : Type 0
  pub minus : Time → Time → Duration
  pub to_double_seconds : Duration → D.Double
  -- google.protobuf.Timestamp, with TimeUtil::TimestampToMicroseconds.
  pub Timestamp : Type 0
  pub timestamp_to_microseconds : Timestamp → ℕ
  -- std::sort with a comparison; it does not say which order equal elements get.
  pub sort : {A : Type 0} → (A → A → Bool) → List A → List A

-- google::type::Date
pub record Date : Type 0 where
  pub year : ℕ
  pub month : ℕ
  pub day : ℕ

-- `==` of two days is equality.
pub record SameDayIsEquality {D : Doubles} (C : Calendar D) : Type 0 where
  pub same_day_iff : (a b : C.CivilDay) → (C.same_day a b ≡ true) ↔ (a ≡ b)

-- `<` of days is a total order.
pub record BeforeIsOrder {D : Doubles} (C : Calendar D) : Type 0 where
  pub before_irrefl : (a : C.CivilDay) → C.before a a ≡ false
  pub before_trans :
      (a b c : C.CivilDay) → C.before a b ≡ false → C.before b c ≡ false → C.before a c ≡ false

-- std::sort permutes: it keeps what stands in the list.
pub record SortKeeps {D : Doubles} (C : Calendar D) : Type 1 where
  pub sort_keeps :
      {A : Type 0} (lt : A → A → Bool) (x : A) (l : List A)
      → Any (λ y. x ≡ y) (C.sort lt l) ↔ Any (λ y. x ≡ y) l
