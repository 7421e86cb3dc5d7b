-- ===== src/Model/GeometricShredder/Reports.antt =====
-- A geometric shredder updates every event or refuses it with a reported error.
use virtual_people_core_serv.Prelude.{ℕ, Reports, report_rules}
use virtual_people_core_serv.External.Events.{Platform}
use virtual_people_core_serv.External.Protobuf.{Protobuf}
use virtual_people_core_serv.Model.GeometricShredder.{
  GeometricShredderImpl, geometric, shred_hash, shred, update,
}

module _ (P : Platform) (B : Protobuf P) (m : GeometricShredderImpl P B) where
  shred_hash-IsReported : Reports (shred_hash P B m)
  unfolding shred_hash geometric
  shred_hash-IsReported event = search report_rules

  shred-IsReported : (hash : ℕ) → Reports (shred P B m hash)
  unfolding shred
  shred-IsReported hash event = search report_rules

  pub update-Reports : Reports (update P B m)
  unfolding update
  update-Reports event = search (report_rules, shred_hash-IsReported, shred-IsReported)
