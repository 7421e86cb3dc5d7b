-- ===== src/Model/ConditionalAssignment/Reports.antt =====
-- A conditional assignment updates every event.
use virtual_people_core_serv.Prelude.{Reports, report_rules}
use virtual_people_core_serv.External.Events.{Platform}
use virtual_people_core_serv.External.Protobuf.{Protobuf}
use virtual_people_core_serv.Model.ConditionalAssignment.{ConditionalAssignmentImpl, update}

pub update-Reports :
    (P : Platform) (B : Protobuf P) (m : ConditionalAssignmentImpl P B) → Reports (update P B m)
unfolding update
update-Reports P B m event = search report_rules
