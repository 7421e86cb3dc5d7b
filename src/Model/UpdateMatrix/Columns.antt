-- ===== src/Model/UpdateMatrix/Columns.antt =====
-- What the matchers and the hashings that Build gives have to do with the configuration.
use virtual_people_core_serv.Prelude.{
  ℕ, zero, suc, ◌+◌, ◌*◌, ◌<◌, ◌≡◌, refl, sym, ap, ◌∙◌, subst, List, [], ◌∷◌, map, Option, none,
  some, ok-injective, >>=-eq-ok, inl, inr, length, get_elem?, arith, ok, or_error, undefined, All,
  false,
}
use virtual_people_core_serv.External.Events.{Platform, LabelerEvent}
use virtual_people_core_serv.External.Protobuf.{Protobuf}
use virtual_people_core_serv.Utils.DistributedConsistentHashing.{DistributionChoice}
use virtual_people_core_serv.Utils.DistributedConsistentHashing
use virtual_people_core_serv.Utils.HashFieldMaskMatcher.{
  HashFieldMaskMatcher, hash_labeler_event, index_of,
}
use virtual_people_core_serv.Utils.HashFieldMaskMatcher
use virtual_people_core_serv.Utils.HashFieldMaskMatcher.Matching.{position, get_match-position}
use virtual_people_core_serv.Utils.FieldFiltersMatcher.{get_first_match}
use virtual_people_core_serv.Utils.FieldFiltersMatcher.FirstMatch.{FirstAt, get_first_match-cases}
use virtual_people_core_serv.Utils.UpdateMatrixHelper.{column_of}
use virtual_people_core_serv.Model.UpdateMatrix.{
  build_field_filters_matcher, build_matchers, column_choices, build_row_hashings,
}

module _ (P : Platform) (B : Protobuf P) where
  -- The filters are made of the columns, one of each.
  abbrev pub FiltersOf : List (LabelerEvent P) → List B.FieldFilter → Type 0
  FiltersOf [] [] = Unit
  FiltersOf (column ∷ columns) (filter ∷ filters) =
      (B.new_event_filter column ≡ ok filter) × FiltersOf columns filters
  FiltersOf (column ∷ columns) [] = ⊥
  FiltersOf [] (filter ∷ filters) = ⊥

  -- The first filter that matches the event, if one does.
  abbrev pub FirstOf : List B.FieldFilter → LabelerEvent P → Option ℕ → Type 0
  FirstOf filters event none = All (λ f. B.is_match f event ≡ false) filters
  FirstOf filters event (some i) = FirstAt P B event filters i

  -- The column that the event belongs to: the first with the hash of the event under the mask, or
  -- the first the filter of which matches the event.
  abbrev pub ColumnOf :
      Option B.FieldMask → List (LabelerEvent P) → LabelerEvent P → Option ℕ → Type 0
  ColumnOf (some mask) columns event found =
      found ≡ position P B mask (hash_labeler_event P B event mask) columns 0
  ColumnOf none columns event found =
      (filters : List B.FieldFilter) × FiltersOf columns filters × FirstOf filters event found

  build_field_filters_matcher-FiltersOf :
      (columns : List (LabelerEvent P)) (filters : List B.FieldFilter)
      → build_field_filters_matcher P B columns ≡ ok filters
      → FiltersOf columns filters
  unfolding build_field_filters_matcher
  build_field_filters_matcher-FiltersOf [] filters e = subst (FiltersOf []) (ok-injective e) tt
  build_field_filters_matcher-FiltersOf (column ∷ columns) filters e =
      let (filter, made, e₁) = >>=-eq-ok (B.new_event_filter column) _ e in
      let (rest, all, e₂) = >>=-eq-ok (build_field_filters_matcher P B columns) _ e₁ in
      subst (FiltersOf (column ∷ columns)) (ok-injective e₂)
        (made, build_field_filters_matcher-FiltersOf columns rest all)

  get_first_match-FirstOf :
      (filters : List B.FieldFilter) (event : LabelerEvent P)
      → (found : Option ℕ) × (get_first_match P B filters event ≡ index_of found)
        × FirstOf filters event found
  get_first_match-FirstOf filters event = elim (get_first_match-cases P B event filters) [
    | inl (e, misses) ↦ (none, e, misses)
    | inr (i, e, first) ↦ (some i, e, first)
  ]

  -- The matchers find the column of the event.
  pub build_matchers-ColumnOf :
      (mask : Option B.FieldMask) (columns : List (LabelerEvent P))
      (matchers : Option (HashFieldMaskMatcher P B) × Option (List B.FieldFilter))
      (event : LabelerEvent P)
      → 0 < length columns
      → build_matchers P B mask columns ≡ ok matchers
      → (found : Option ℕ) × ColumnOf mask columns event found
        × (column_of P B matchers.0 matchers.1 event ≡ ok (index_of found))
  unfolding build_matchers column_of
  build_matchers-ColumnOf mask [] matchers event filled e = absurd (omega arith)
  build_matchers-ColumnOf (some mask) (column ∷ columns) matchers event filled e =
      let (matcher, built, e') =
        >>=-eq-ok (HashFieldMaskMatcher.build P B (map some (column ∷ columns)) mask) _ e in
      let found = position P B mask (hash_labeler_event P B event mask) (column ∷ columns) 0 in
      (
        found,
        refl,
        subst (λ ms. column_of P B ms.0 ms.1 event ≡ ok (index_of found)) (ok-injective e')
            (ap ok (get_match-position P B column columns mask matcher event built)),
      )
  build_matchers-ColumnOf none (column ∷ columns) matchers event filled e =
      let (filters, built, e') =
        >>=-eq-ok (build_field_filters_matcher P B (column ∷ columns)) _ e in
      let (found, index, first) = get_first_match-FirstOf filters event in
      (
        found,
        (filters, build_field_filters_matcher-FiltersOf (column ∷ columns) filters built, first),
        subst (λ ms. column_of P B ms.0 ms.1 event ≡ ok (index_of found)) (ok-injective e')
            (ap ok index),
      )

  -- The choice of each row from `row`: its index, and its probability in the column.
  abbrev pub ChoicesOf :
      List P.doubles.Double → ℕ → ℕ → ℕ → List (DistributionChoice P.doubles) → Type 0
  ChoicesOf probabilities columns column row choices =
      (r : ℕ) (choice : DistributionChoice P.doubles)
      → get_elem? choices r ≡ some choice
      → (choice.choice_id ≡ row + r)
        × (get_elem? probabilities ((row + r) * columns + column) ≡ some choice.probability)

  -- The hashing of a column is built of a choice for each of the rows.
  abbrev pub IsHashing :
      List P.doubles.Double → ℕ → ℕ → ℕ → List (DistributionChoice P.doubles) → Type 0
  IsHashing probabilities rows columns column hashing =
      (choices : List (DistributionChoice P.doubles)) × (length choices ≡ rows)
      × ChoicesOf probabilities columns column 0 choices
      × (DistributedConsistentHashing.build P.doubles choices ≡ ok hashing)

  or_error-of_ok : {A : Type 0} (o : Option A) {a : A} → or_error o undefined ≡ ok a → o ≡ some a
  or_error-of_ok none e = cc
  or_error-of_ok (some b) e = ap some (ok-injective e)

  column_choices-ChoicesOf :
      (probabilities : List P.doubles.Double) (columns column left row : ℕ)
      (choices : List (DistributionChoice P.doubles))
      → column_choices P B probabilities columns column left row ≡ ok choices
      → (length choices ≡ left) × ChoicesOf probabilities columns column row choices
  unfolding column_choices
  column_choices-ChoicesOf probabilities columns column zero row choices e =
      subst (λ cs. (length cs ≡ 0) × ChoicesOf probabilities columns column row cs) (ok-injective e)
        (refl, (λ r choice none_here. cc))
  column_choices-ChoicesOf probabilities columns column (suc left) row choices e =
      let (probability, read, e₁) =
        >>=-eq-ok (or_error (get_elem? probabilities (row * columns + column)) undefined) _ e in
      let (rest, all, e₂) =
        >>=-eq-ok (column_choices P B probabilities columns column left (suc row)) _ e₁ in
      let (count, later) =
        column_choices-ChoicesOf probabilities columns column left (suc row) rest all in
      subst (λ cs. (length cs ≡ suc left) × ChoicesOf probabilities columns column row cs)
        (ok-injective e₂)
        (ap suc count, ChoicesOf-cons rest probability (or_error-of_ok _ read) later)
    where
      ChoicesOf-cons :
          (rest : List (DistributionChoice P.doubles)) (probability : P.doubles.Double)
          → get_elem? probabilities (row * columns + column) ≡ some probability
          → ChoicesOf probabilities columns column (suc row) rest
          → ChoicesOf probabilities columns column row
              (record { choice_id = row; probability = probability } ∷ rest)
      ChoicesOf-cons rest probability read later zero choice here =
          let same : ◌≡◌ {A = DistributionChoice P.doubles}
              (record { choice_id = row; probability = probability }) choice =
            cc in
          subst
            (λ c.
              (c.choice_id ≡ row + 0)
              × (get_elem? probabilities ((row + 0) * columns + column) ≡ some c.probability))
            same
            (
              omega arith,
              ap (λ x. get_elem? probabilities (x * columns + column)) (omega arith) ∙ read,
            )
      ChoicesOf-cons rest probability read later (suc r) choice here =
          let (id, at) = later r choice here in
          (
            id ∙ omega arith,
            ap (λ x. get_elem? probabilities (x * columns + column)) (omega arith) ∙ at,
          )

  pub build_row_hashings-IsHashing :
      (probabilities : List P.doubles.Double) (rows columns left column : ℕ)
      (hashings : List (List (DistributionChoice P.doubles)))
      → build_row_hashings P B probabilities rows columns left column ≡ ok hashings
      → (i : ℕ) (hashing : List (DistributionChoice P.doubles))
      → get_elem? hashings i ≡ some hashing
      → IsHashing probabilities rows columns (column + i) hashing
  unfolding build_row_hashings
  build_row_hashings-IsHashing probabilities rows columns zero column hashings e i hashing at =
      cc (subst (λ hs. get_elem? hs i ≡ some hashing) (sym (ok-injective e)) at)
  build_row_hashings-IsHashing probabilities rows columns (suc left) column hashings e i hashing
        at =
      let (choices, made, e₁) =
        >>=-eq-ok (column_choices P B probabilities columns column rows 0) _ e in
      let (first, built, e₂) =
        >>=-eq-ok (DistributedConsistentHashing.build P.doubles choices) _ e₁ in
      let (rest, all, e₃) =
        >>=-eq-ok (build_row_hashings P B probabilities rows columns left (suc column)) _ e₂ in
      let (count, made_of) =
        column_choices-ChoicesOf probabilities columns column rows 0 choices made in
      at_index i first rest choices count made_of built
        (build_row_hashings-IsHashing probabilities rows columns left (suc column) rest all)
        (subst (λ hs. get_elem? hs i ≡ some hashing) (sym (ok-injective e₃)) at)
    where
      at_index :
          (i : ℕ) (first : List (DistributionChoice P.doubles))
          (rest : List (List (DistributionChoice P.doubles)))
          (choices : List (DistributionChoice P.doubles))
          → length choices ≡ rows
          → ChoicesOf probabilities columns column 0 choices
          → DistributedConsistentHashing.build P.doubles choices ≡ ok first
          → ((i : ℕ) (hashing : List (DistributionChoice P.doubles))
              → get_elem? rest i ≡ some hashing
              → IsHashing probabilities rows columns (suc column + i) hashing)
          → get_elem? (first ∷ rest) i ≡ some hashing
          → IsHashing probabilities rows columns (column + i) hashing
      at_index zero first rest choices count made_of built later at =
          let same : first ≡ hashing = cc in
          subst (λ c. IsHashing probabilities rows columns c hashing) (omega arith)
            (choices, count, made_of, built ∙ ap ok same)
      at_index (suc i) first rest choices count made_of built later at =
          subst (λ c. IsHashing probabilities rows columns c hashing) (omega arith)
            (later i hashing at)
