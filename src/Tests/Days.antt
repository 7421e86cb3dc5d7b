-- ===== src/Tests/Days.antt =====
-- Days that are numbers, and an insertion sort.
use virtual_people_core_serv.Prelude.{
  ℕ, ◌+◌, ◌-◌, ◌*◌, ◌/◌, ◌^◌, ◌⊎◌, ◌↔◌, Bool, List, [], ◌∷◌, Any, ◌≡◌, arith, ltb, ◌==◌, ==_iff,
  if◌then◌else◌,
}
use virtual_people_core_serv.External.Calendar.{
  Calendar, SameDayIsEquality, BeforeIsOrder, SortKeeps,
}
use virtual_people_core_serv.Tests.Setup.{numbers}

-- Insertion sort.
unfoldable pub insert : {A : Type 0} → (A → A → Bool) → A → List A → List A
insert lt x [] = x ∷ []
insert lt x (y ∷ l) = let rest = insert lt x l in if lt y x then y ∷ rest else x ∷ y ∷ l

unfoldable pub insertion_sort : {A : Type 0} → (A → A → Bool) → List A → List A
insertion_sort lt [] = []
insertion_sort lt (x ∷ l) = insert lt x (insertion_sort lt l)

insert-keeps :
    {A : Type 0} (lt : A → A → Bool) (z x : A) (l : List A)
    → Any (λ y. z ≡ y) (insert lt x l) ↔ ((z ≡ x) ⊎ Any (λ y. z ≡ y) l)
unfolding insert
insert-keeps lt z x [] = ground arith
insert-keeps lt z x (y ∷ l) = let ih = insert-keeps lt z x l in ground arith

insertion_sort-keeps :
    {A : Type 0} (lt : A → A → Bool) (z : A) (l : List A)
    → Any (λ y. z ≡ y) (insertion_sort lt l) ↔ Any (λ y. z ≡ y) l
unfolding insertion_sort
insertion_sort-keeps lt z [] = ground arith
insertion_sort-keeps lt z (x ∷ l) =
    let ih = insertion_sort-keeps lt z l in
    let step = insert-keeps lt z x (insertion_sort lt l) in ground arith

abbrev pub calendar : Calendar numbers
calendar = record {
  CivilDay = ℕ;
  same_day = ◌==◌;
  before = ltb;
  civil_day = λ y m d. y * 372 + m * 31 + d;
  max_day = 2 ^ 40;
  day_of_micros = λ n. n / 10;
  Time = ℕ;
  from_civil = λ d. d;
  Duration = ℕ;
  minus = λ a b. a - b;
  to_double_seconds = λ d. d;
  Timestamp = ℕ;
  timestamp_to_microseconds = λ n. n;
  sort = λ {A} lt l. insertion_sort lt l;
}

pub calendar-SameDayIsEquality : SameDayIsEquality calendar
calendar-SameDayIsEquality = record { same_day_iff = λ a b. ==_iff a b }

pub calendar-BeforeIsOrder : BeforeIsOrder calendar
calendar-BeforeIsOrder = record {
  before_irrefl = λ a. ground arith;
  before_trans = λ a b c h h'. ground arith;
}

pub calendar-SortKeeps : SortKeeps calendar
calendar-SortKeeps = record { sort_keeps = λ {A} lt x l. insertion_sort-keeps lt x l }
