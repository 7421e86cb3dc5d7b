-- ===== src/ModelWriter.antt =====
-- src/main/cc/wfa/virtual_people/model_writer/model_writer_main.cc: main, over a disk. A CHECK that
-- fails ends the program.
pub mod Written
use Prim.Native.Nat.{Ordering}
use Prim.Native.String.{String, compare}
use virtual_people_core_serv.Prelude.{
  Bool, true, false, not, Option, none, some, Result, ok, err, ℤ, pos, negsuc, ◌==◌,
}
use virtual_people_core_serv.External.Events.{Platform}
use virtual_people_core_serv.External.Protobuf.{Protobuf}
use virtual_people_core_serv.External.Files.{Files}
use virtual_people_core_serv.Model.Config.{CompiledNode}
use virtual_people_core_serv.Model.ModelSerializer.{to_node_list_representation}

-- FLAGS_input_model_path and FLAGS_output_model_path.
pub record Flags : Type 0 where
  pub input_model_path : String
  pub output_model_path : String

-- The CHECKs, in order.
pub data Check : Type 0 where
  input_not_set output_not_set not_opened not_parsed not_converted not_written : Check

pub data Outcome (A : Type 0) : Type 0 where
  done : A → Outcome A
  check_failed : Check → Outcome A

infixl 5 ◌>>=◌
abbrev pub ◌>>=◌ : {A C : Type 0} → Outcome A → (A → Outcome C) → Outcome C
done a >>= f = f a
check_failed c >>= f = check_failed c

-- CHECK of a condition.
abbrev pub check : Bool → Check → Outcome (Unit {0})
check true c = done tt
check false c = check_failed c

-- CHECK of a status, with the value.
abbrev pub check_ok : {A : Type 0} → Result A → Check → Outcome A
check_ok (ok a) c = done a
check_ok (err e) c = check_failed c

unfoldable pub is_empty : String → Bool
is_empty path = elim (compare path "") [ Ordering.eq ↦ true | _ ↦ false ]

-- `fd > 0`
unfoldable pub is_positive : ℤ → Bool
is_positive (pos n) = not (n == 0)
is_positive (negsuc n) = false

-- A value that was parsed.
abbrev pub check_parsed : {A : Type 0} → Option A → Outcome A
check_parsed (some a) = done a
check_parsed none = check_failed not_parsed

module _ (P : Platform) (B : Protobuf P) (F : Files P B) where
  -- ReadSingleNodeModel.
  unfoldable pub read_single_node_model : F.Disk → String → Outcome (CompiledNode P B)
  read_single_node_model disk path = do
    opened ← check (is_positive (F.open_file disk path)) not_opened
    check_parsed (F.parse_text disk path)

  -- main, to the disk that it leaves.
  unfoldable pub main : Flags → F.Disk → Outcome F.Disk
  main flags disk = do
    input_set ← check (not (is_empty flags.input_model_path)) input_not_set
    output_set ← check (not (is_empty flags.output_model_path)) output_not_set
    root ← read_single_node_model disk flags.input_model_path
    node_list ← check_ok (to_node_list_representation P B root) not_converted
    check_ok (F.write_riegeli_file disk flags.output_model_path node_list) not_written
