-- ===== src/Executor/Ledger.antt =====
-- What the executor (executor/executor.go) promises of the updates that it sends: an abstract view
-- of `UnackedUpdates`, `updateStatus` and `handleAcknowledged`, with no table and no handlers.
pub mod Laws
pub mod Refines
pub mod Order
use go_mesos_executor.Common.{◌≡◌, String, Option, none, some, str_eq, if◌then◌else◌}
use go_mesos_executor.Mesos.{TaskStatus}

-- The update that waits under each UUID.
abbrev pub Ledger : Type 0
Ledger = String → Option TaskStatus

abbrev pub put : TaskStatus → Ledger → Ledger
put status l k = if str_eq status.uuid k then some status else l k

abbrev pub forget : String → Ledger → Ledger
forget uuid l k = if str_eq uuid k then none else l k

-- A ledger moves by putting down an update that the agent took, under the update's own UUID, and
-- by forgetting a UUID that the agent acknowledged; by nothing else.
pub data Moves (Took : TaskStatus → Type 0) (Acked : String → Type 0) (l : Ledger)
    : Ledger → Type 0 where
  stays : Moves Took Acked l l
  puts :
      {l' : Ledger} (status : TaskStatus)
      → Took status
      → Moves Took Acked l l'
      → Moves Took Acked l (put status l')
  forgets :
      {l' : Ledger} (uuid : String)
      → Acked uuid
      → Moves Took Acked l l'
      → Moves Took Acked l (forget uuid l')
