-- ===== src/Model/Multiplicity/Reports.antt =====
-- A multiplicity that is built has a count for every event or refuses it with a reported error.
use virtual_people_core_serv.Prelude.{
  ℕ, Reported, Option, none, some, ok, err, guard, or_error, Returns, Returns-ok, Returns-err,
  Returns->>=, Returns->>=_any, IsReported, Reports, AnyStatus, invalid_argument, unsupported_type,
  no_person_index_field, invalid_person_index_type, no_max_value, no_cap_at_max, no_random_seed,
  multiplicity_not_set, report_rules,
}
use virtual_people_core_serv.External.Events.{Platform}
use virtual_people_core_serv.External.Protobuf.{Protobuf}
use virtual_people_core_serv.Model.Multiplicity.{
  is_numeric, is_integer_field_type, MultiplicityRef, expected_multiplicity,
  expected_multiplicity_field, multiplicity_ref_not_set, Multiplicity, MultiplicityImpl,
  build_extractor, compute_bimodal_integer, build, extract, cap, compute_event_multiplicity,
}

module _ (P : Platform) (B : Protobuf P) where
  build_extractor-Reports :
      (ref : MultiplicityRef P B)
      → Returns (λ extractor. Reports (extract P B extractor)) AnyStatus (build_extractor P B ref)
  unfolding build_extractor extract
  build_extractor-Reports (expected_multiplicity value) = Returns-ok _ (λ event. Returns-ok _ tt)
  build_extractor-Reports (expected_multiplicity_field name) =
      Returns->>=_any (B.get_field name) _ (λ field _.
        Returns->>=_any (guard (is_numeric (B.cpp_type field)) (invalid_argument unsupported_type))
          _ (λ _ _. Returns-ok _ (λ event. from_value (B.get_value event field))))
    where
      from_value :
          (value : Option B.Value)
          → Returns
              (λ x. Unit {0})
              IsReported
              (elim value [
                | none ↦ err (invalid_argument multiplicity_not_set)
                | some v ↦ ok (B.double_of_value v)
              ])
      from_value none = Returns-err _ tt
      from_value (some v) = Returns-ok _ tt
  build_extractor-Reports multiplicity_ref_not_set = Returns-err _ tt

  cap-IsReported : (m : MultiplicityImpl P B) → Reports (cap P B m)
  unfolding cap
  cap-IsReported m expected = search report_rules

  compute_bimodal_integer-IsReported :
      (expectation : P.doubles.Double) (seed : ℕ)
      → Reported (compute_bimodal_integer P.doubles expectation seed)
  unfolding compute_bimodal_integer
  compute_bimodal_integer-IsReported expectation seed = search report_rules

  compute_event_multiplicity-IsReported :
      (m : MultiplicityImpl P B)
      → Reports (extract P B m.multiplicity_extractor)
      → Reports (compute_event_multiplicity P B m)
  unfolding compute_event_multiplicity
  compute_event_multiplicity-IsReported m extracts event =
      search (report_rules, extracts, cap-IsReported, compute_bimodal_integer-IsReported)

  pub build-Reports :
      (config : Multiplicity P B)
      → Returns (λ m. Reports (compute_event_multiplicity P B m)) AnyStatus (build P B config)
  unfolding build
  build-Reports config =
      Returns->>= (build_extractor P B config.multiplicity_ref) _
        (build_extractor-Reports config.multiplicity_ref)
        (λ extractor _ extracts.
          Returns->>=_any
            (or_error config.person_index_field (invalid_argument no_person_index_field)) _
            (λ name _. Returns->>=_any (B.get_field name) _ (λ field _.
              Returns->>=_any
                (guard (is_integer_field_type (B.cpp_type field))
                  (invalid_argument invalid_person_index_type))
                _
                (λ _ _.
                  Returns->>=_any (or_error config.max_value (invalid_argument no_max_value)) _
                    (λ max_value _.
                      Returns->>=_any (or_error config.cap_at_max (invalid_argument no_cap_at_max))
                        _
                        (λ cap_at_max _.
                          Returns->>=_any
                            (or_error config.random_seed (invalid_argument no_random_seed)) _
                            (λ random_seed _.
                              Returns-ok _ (compute_event_multiplicity-IsReported _ extracts))))))))
