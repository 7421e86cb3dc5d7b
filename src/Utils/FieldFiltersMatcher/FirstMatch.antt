-- ===== src/Utils/FieldFiltersMatcher/FirstMatch.antt =====
-- GetFirstMatch returns the first filter that matches.
use virtual_people_core_serv.Prelude.{
  ℕ, zero, suc, ◌+◌, ◌<◌, ◌≡◌, refl, ap, ◌⊎◌, inl, inr, true, false, List, [], ◌∷◌, some, All,
  get_elem?, pos, no_matching_index, arith, Bool-cases, length, AnyStatus, Returns, Returns-ok,
  Returns-err, Returns->>=, Returns->>=_any,
}
use virtual_people_core_serv.External.Events.{Platform, LabelerEvent}
use virtual_people_core_serv.External.Protobuf.{Protobuf}
use virtual_people_core_serv.Utils.FieldFiltersMatcher.{
  new_filters, build, first_match_from, get_first_match,
}

module _ (P : Platform) (B : Protobuf P) (event : LabelerEvent P) where
  -- A filter at `i` that matches, and none before it.
  pub record FirstAt (filters : List B.FieldFilter) (i : ℕ) : Type 0 where
    pub filter : B.FieldFilter
    pub here : get_elem? filters i ≡ some filter
    pub matches : B.is_match filter event ≡ true
    pub earlier :
        (j : ℕ) (g : B.FieldFilter)
        → j < i
        → get_elem? filters j ≡ some g
        → B.is_match g event ≡ false

  FirstAt-suc :
      (f : B.FieldFilter) (fs : List B.FieldFilter) (i : ℕ)
      → B.is_match f event ≡ false
      → FirstAt fs i
      → FirstAt (f ∷ fs) (suc i)
  FirstAt-suc f fs i miss first = record {
    filter = first.filter;
    here = first.here;
    matches = first.matches;
    earlier = before;
  }
    where
      before :
          (j : ℕ) (g : B.FieldFilter)
          → j < suc i
          → get_elem? (f ∷ fs) j ≡ some g
          → B.is_match g event ≡ false
      before zero g lt e = ground arith
      before (suc j) g lt e = first.earlier j g (omega arith) e

  first_match_from-cases :
      (index : ℕ) (fs : List B.FieldFilter)
      → ((first_match_from P B index fs event ≡ no_matching_index)
          × All (λ f. B.is_match f event ≡ false) fs)
        ⊎ ((i : ℕ) × (first_match_from P B index fs event ≡ pos (index + i)) × FirstAt fs i)
  unfolding first_match_from
  first_match_from-cases index [] = inl (refl, tt)
  first_match_from-cases index (f ∷ fs) = elim (Bool-cases (B.is_match f event)) [
    | inl hit ↦ inr (
      0,
      rw (hit, first_match_from) (ap pos (omega arith)),
      record { filter = f; here = refl; matches = hit; earlier = λ j g lt e. absurd (omega arith) },
    )
    | inr miss ↦
        rw (miss, first_match_from)
          (elim (first_match_from-cases (suc index) fs) [
            | inl (e, none_of) ↦ inl (e, (refl, none_of))
            | inr (i, e, first) ↦ inr (suc i, ground arith, FirstAt-suc f fs i miss first)
          ])
  ]

  -- GetFirstMatch returns the index of the first filter that matches the event, or
  -- kNoMatchingIndex where none does.
  pub get_first_match-cases :
      (fs : List B.FieldFilter)
      → ((get_first_match P B fs event ≡ no_matching_index)
          × All (λ f. B.is_match f event ≡ false) fs)
        ⊎ ((i : ℕ) × (get_first_match P B fs event ≡ pos i) × FirstAt fs i)
  unfolding get_first_match
  get_first_match-cases fs = elim (first_match_from-cases 0 fs) [
    | inl none_of ↦ inl none_of
    | inr (i, e, first) ↦ inr (i, ground arith, first)
  ]

-- A matcher has a filter for each config.
new_filters-length :
    (P : Platform) (B : Protobuf P) (configs : List B.FieldFilterProto)
    → Returns (λ filters. length filters ≡ length configs) AnyStatus (new_filters P B configs)
unfolding new_filters
new_filters-length P B [] = Returns-ok _ refl
new_filters-length P B (config ∷ configs) = Returns->>=_any (B.new_filter config) _ (λ filter _.
    Returns->>= (new_filters P B configs) _ (new_filters-length P B configs)
      (λ filters _ same. Returns-ok _ (ap suc same)))

pub build-length :
    (P : Platform) (B : Protobuf P) (configs : List B.FieldFilterProto)
    → Returns (λ filters. length filters ≡ length configs) AnyStatus (build P B configs)
unfolding build
build-length P B [] = Returns-err _ tt
build-length P B (config ∷ configs) = new_filters-length P B (config ∷ configs)
