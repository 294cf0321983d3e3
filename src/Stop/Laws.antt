-- ===== src/Stop/Laws.antt =====
-- How a process stops.
use y_rpc.Common.{ℕ, List, [], ◌∷◌, none}
use y_rpc.Message.{Message}
use y_rpc.PointerList
use y_rpc.PointerList.{remove_nodes}
use y_rpc.Core.{SendList, Core, Env}
use y_rpc.Core.Events
use y_rpc.Core.Events.{disconnected}
use y_rpc.Driver.{Driver, bufferevent_free, set_timeouts, calling}

module _ {L : Type 0} (q : SendList L) where
  -- A list that these messages stand in, the first one in front
  abbrev pub list_of : List Message → L
  list_of [] = q.list_init
  list_of (m ∷ ms) = q.list_insert_head m (list_of ms)

  module _ (env : Env) where
    -- The driver behind the disconnection of its only connection
    alone : ℕ → ℕ → Driver (Core L) → Driver (Core L)
    alone i fd d = calling (bufferevent_free fd) (
        calling (set_timeouts fd none) (record d {
          client = disconnected fd 1 (record d.client {
            process_connect_list = record d.client.process_connect_list { it = PointerList.at i };
          });
        }))
