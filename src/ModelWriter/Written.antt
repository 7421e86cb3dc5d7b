-- ===== src/ModelWriter/Written.antt =====
-- A model that is written is the model that was read.
use virtual_people_core_serv.Prelude.{
  ok, err, Option, none, some, Result, ◌≡◌, refl, length, ◌≤◌, ◌^◌, not,
}
use virtual_people_core_serv.External.Events.{Platform}
use virtual_people_core_serv.External.Protobuf.{Protobuf}
use virtual_people_core_serv.External.Files.{Files, ReadsWhatIsWritten}
use virtual_people_core_serv.Model.Config.{CompiledNode}
use virtual_people_core_serv.Model.ModelSerializer.{NodeList, to_node_list_representation}
use virtual_people_core_serv.Labeler.Build.{build_root, build_list}
use virtual_people_core_serv.Labeler.Build.RoundTrip.{build_list-to_node_list_representation}
use virtual_people_core_serv.ModelWriter.{
  Flags, Outcome, Check, done, check_failed, check, check_ok, check_parsed, ◌>>=◌ as ◌>>>=◌,
  is_empty, input_not_set, output_not_set, not_opened, not_converted, not_written, is_positive,
  read_single_node_model, main,
}

>>=-eq-done :
    {A C : Type 0} (m : Outcome A) (f : A → Outcome C) {c : C}
    → (m >>>= f) ≡ done c
    → (a : A) × (m ≡ done a) × (f a ≡ done c)
>>=-eq-done (done a) f e = (a, refl, e)
>>=-eq-done (check_failed c) f e = cc

check_ok-eq-done :
    {A : Type 0} (r : Result A) (c : Check) {a : A} → check_ok r c ≡ done a → r ≡ ok a
check_ok-eq-done (ok a) c e = cc
check_ok-eq-done (err s) c e = cc

check_parsed-eq-done : {A : Type 0} (o : Option A) {a : A} → check_parsed o ≡ done a → o ≡ some a
check_parsed-eq-done (some a) e = cc
check_parsed-eq-done none e = cc

module _ (P : Platform) (B : Protobuf P) (F : Files P B) (law : ReadsWhatIsWritten F) where
  -- When the model writer ends without a failed CHECK, its input file held a root, and its
  -- output file is read as a list of nodes; if the list has at most 2 ^ 32 nodes,
  -- Labeler::Build of the list has the result of Labeler::Build of that root. A Riegeli file
  -- holds the records that were written to it.
  pub main-build_list :
      (flags : Flags) (disk disk' : F.Disk)
      → main P B F flags disk ≡ done disk'
      → (root : CompiledNode P B) × (list : NodeList P B) × (F.parse_text disk
            flags.input_model_path
          ≡ some root)
        × (F.read_riegeli_file disk' flags.output_model_path ≡ ok list)
        × (length list ≤ 2 ^ 32 → build_list P B list ≡ build_root P B root)
  unfolding main read_single_node_model
  main-build_list flags disk disk' e =
      let (_, _, e₁) =
        >>=-eq-done (check (not (is_empty flags.input_model_path)) input_not_set) _ e in
      let (_, _, e₂) =
        >>=-eq-done (check (not (is_empty flags.output_model_path)) output_not_set) _ e₁ in
      let (root, read, e₃) =
        >>=-eq-done (read_single_node_model P B F disk flags.input_model_path) _ e₂ in
      let (list, converted, e₄) =
        >>=-eq-done (check_ok (to_node_list_representation P B root) not_converted) _ e₃ in
      let (_, _, parsed) =
        >>=-eq-done (check (is_positive (F.open_file disk flags.input_model_path)) not_opened) _
          read in
      (
        root,
        list,
        check_parsed-eq-done (F.parse_text disk flags.input_model_path) parsed,
        law.read_write disk disk' flags.output_model_path list (
            check_ok-eq-done (F.write_riegeli_file disk flags.output_model_path list) not_written
              e₄),
        λ small.
            build_list-to_node_list_representation P B root list
              (check_ok-eq-done (to_node_list_representation P B root) not_converted converted)
              small,
      )
