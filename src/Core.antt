-- ===== src/Core.antt =====
-- rpc_core.h: the static state of RPCCore, what its handlers do to their surroundings, and what
-- they take from code outside of the repository: the list macros of queue.h, the results of the
-- thread pool and of malloc.
pub mod Queue
pub mod Reply
pub mod Link
pub mod Receive
pub mod Events
pub mod Call
pub mod Observe
pub mod Sender
use y_rpc.Common.{ℕ, ◌≡◌, Bool, List, [], ◌∷◌, Option, none, some, ℤ, bytes_of}
use y_rpc.Head.{TimeVal}
use y_rpc.Message.{Message}
use y_rpc.Hash.{Hash}
use y_rpc.StringHash.{StringHash}
use y_rpc.Observer.{ObserverHash}
use y_rpc.PointerList.{PointerList}

-- The macros LIST_INIT, LIST_FIRST, LIST_INSERT_HEAD and LIST_REMOVE of the first entry
-- (data_structure/queue.h, a copy of OpenBSD's), with what their manual says of them. A list entry
-- is its message.
pub record SendList (Head : Type 0) : Type 0 where
  pub list_init : Head
  pub list_first : Head → Option Message
  pub list_insert_head : Message → Head → Head
  pub list_remove_first : Head → Head
  pub first-init : list_first list_init ≡ none
  pub first-insert_head : (m : Message) (h : Head) → list_first (list_insert_head m h) ≡ some m
  pub remove_first-insert_head :
      (m : Message) (h : Head) → list_remove_first (list_insert_head m h) ≡ h

-- What a handler does to a message object or to a connection. A message that was made has one owner
-- at a time: it is released, or handed to the thread pool, to a waiting caller or to the send list.
pub data Effect : Type 0 where
  made : Effect
  released : Message → Effect
  added_work : Message → Effect
  delivered : ℕ → Message → Effect
  queued : Message → Effect
  sent : ℕ → List ℕ → Effect
  closed : ℕ → Effect

-- The static members. `responses` is the member `response` of the RPCProxy at each address.
-- `trace` lists the effects, the latest first.
pub record Core (Head : Type 0) : Type 0 where
  pub run_state : Bool
  pub process_name : List ℕ
  pub frame_id : ℕ
  pub send_head : Head
  pub proxy_hash : Hash ℕ
  pub responses : ℕ → Option Message
  pub service_func_hash : StringHash
  pub observer_func_hash : StringHash
  pub observer_connect_hash : ObserverHash
  pub process_connect_hash : StringHash
  pub process_connect_list : PointerList
  pub trace : List Effect

-- What the surroundings answer: whether malloc returns a block for the body and for a list entry,
-- and the result of `addWork`. A failed malloc in serializeMessage is tried again by every caller
-- in rpc_core.cpp, so serialisation is modelled with the malloc that succeeds.
pub record Env : Type 0 where
  pub malloc_body : Bool
  pub malloc_node : Bool
  pub add_work : ℤ

abbrev pub rpcsuccess : ℕ
rpcsuccess = 0x0000

abbrev pub rpcnospecifyservice : ℕ
rpcnospecifyservice = 0x0001

abbrev pub rpcnoobserverobject : ℕ
rpcnoobserverobject = 0x0002

abbrev pub observerappendstring : List ℕ
observerappendstring = bytes_of "ObserverHandler"

abbrev pub invokeobserverfunc : List ℕ
invokeobserverfunc = bytes_of "invokeObserverHandler"

abbrev pub registerobserverfunc : List ℕ
registerobserverfunc = bytes_of "registerObserverHandler"

abbrev pub unregisterobserverfunc : List ℕ
unregisterobserverfunc = bytes_of "unRegisterObserverHandler"

-- An effect joins the trace.
abbrev pub note : {Head : Type 0} → Effect → Core Head → Core Head
note e st = record st { trace = e ∷ st.trace }
