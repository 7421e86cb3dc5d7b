-- ===== src/Model/Ids.antt =====
-- The ids of the activities that the nodes and updaters give.
pub mod Allows
pub mod Leaves
pub mod Fields
pub mod Updaters
pub mod Branching
pub mod Trees
use virtual_people_core_serv.Prelude.{
  ℕ, ◌+◌, ◌^◌, ◌≤◌, ◌<◌, List, Option, none, some, Result, All, Returns, AnyStatus,
}
use virtual_people_core_serv.External.Events.{Platform, LabelerEvent, VirtualPersonActivity}

module _ (P : Platform) (Q : ℕ → Type 0) where
  -- An id that is set has the property.
  abbrev pub IdAllowed : Option ℕ → Type 0
  IdAllowed none = Unit
  IdAllowed (some id) = Q id

  abbrev pub IsAllowed : VirtualPersonActivity P → Type 0
  IsAllowed activity = IdAllowed activity.virtual_person_id

  abbrev pub Allowed : LabelerEvent P → Type 0
  Allowed event = All IsAllowed event.virtual_person_activities

  -- An event with allowed ids gives one with allowed ids.
  abbrev pub Keeps : (LabelerEvent P → Result (LabelerEvent P)) → Type 0
  Keeps f = (event : LabelerEvent P) → Allowed event → Returns Allowed AnyStatus (f event)
