-- ===== src/External/Files.antt =====
-- The files of the model writer: open(2), TextFormat::Parse of a file, and the Riegeli files of
-- common-cpp.
use Prim.Native.String.{String}
use virtual_people_core_serv.Prelude.{ℤ, List, Option, Result, ok, ◌≡◌}
use virtual_people_core_serv.External.Events.{Platform}
use virtual_people_core_serv.External.Protobuf.{Protobuf}
use virtual_people_core_serv.Model.Config.{CompiledNode}

pub record Files (P : Platform) (B : Protobuf P) : Type 1 where
  pub Disk : Type 0
  -- The file descriptor, or -1.
  pub open_file : Disk → String → ℤ
  pub parse_text : Disk → String → Option (CompiledNode P B)
  pub write_riegeli_file : Disk → String → List (CompiledNode P B) → Result Disk
  pub read_riegeli_file : Disk → String → Result (List (CompiledNode P B))

-- A Riegeli file that was written holds the records that were written.
pub record ReadsWhatIsWritten {P : Platform} {B : Protobuf P} (F : Files P B) : Type 0 where
  pub read_write :
      (disk disk' : F.Disk) (path : String) (records : List (CompiledNode P B))
      → F.write_riegeli_file disk path records ≡ ok disk'
      → F.read_riegeli_file disk' path ≡ ok records
