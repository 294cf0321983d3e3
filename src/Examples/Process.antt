-- ===== src/Examples/Process.antt =====
-- Two processes, with a list of messages as the send list.
use y_rpc.Common.{refl, true, List, [], ◌∷◌, Option, none, some, pos, bytes_of}
use y_rpc.Container.Order.{uint_key, string_key}
use y_rpc.Message.{Message}
use y_rpc.PointerList.{end}
use y_rpc.Core.{SendList, Core, Env}

abbrev pub list_first : List Message → Option Message
list_first [] = none
list_first (m ∷ ms) = some m

abbrev pub list_remove_first : List Message → List Message
list_remove_first [] = []
list_remove_first (m ∷ ms) = ms

abbrev pub send_list : SendList (List Message)
send_list = record {
  list_init = [];
  list_first = list_first;
  list_insert_head = λ m ms. m ∷ ms;
  list_remove_first = list_remove_first;
  first-init = refl;
  first-insert_head = λ m ms. refl;
  remove_first-insert_head = λ m ms. refl;
}

abbrev pub env : Env
env = record { malloc_body = true; malloc_node = true; add_work = pos 0 }

-- The process "pb", which knows "pa" by the connection 40 and has one request under way.
abbrev pub process : Core (List Message)
process = record {
  run_state = true;
  process_name = bytes_of "pb";
  frame_id = 7;
  send_head = [];
  proxy_hash = (7, 500) ∷ [];
  responses = λ a. none;
  service_func_hash = [];
  observer_func_hash = [];
  observer_connect_hash = (bytes_of "o", 40 ∷ []) ∷ [];
  process_connect_hash = (bytes_of "pa", 40) ∷ [];
  process_connect_list = record { nodes = (0, 40) ∷ []; next_node = 1; it = end };
  trace = [];
}

-- The process "pa", which waits for the answer to its request 7.
abbrev pub caller : Core (List Message)
caller = record process { process_name = bytes_of "pa" }
