-- ===== src/Core/Call/Begin.antt =====
-- What a two-way call to another process starts.
use y_rpc.Common.{
  ℕ, ◌^◌, ◌<◌, ◌≡◌, refl, ◌∙◌, ap, Bool, true, false, List, length, ==_refl, Option, none, some, ℤ,
  pos, Run, done, ◌>>=◌, if◌then◌else◌, string_eq, arith,
}
use y_rpc.Container.{lookup, IsSorted}
use y_rpc.Container.Order.{uint_key}
use y_rpc.Container.Laws.{same_key_refl}
use y_rpc.Head as MsgHead
use y_rpc.Head.{TimeVal, mt_apply_pk}
use y_rpc.Body
use y_rpc.Body.{read_bytes}
use y_rpc.Message
use y_rpc.Message.{
  Message, UserData, block, new_message, malloc_body_data, update_body_size, change_oneway_status,
}
use y_rpc.Message.Wire.{holding, malloc_body_data-holding}
use y_rpc.Hash
use y_rpc.Hash.Laws.{insert-Writes}
use y_rpc.Core.{SendList, Core, Env, made, note}
use y_rpc.Core.Queue.{get_frame_id, new_proxy, insert_sender_node, take_sender_node}
use y_rpc.Core.Queue.Laws.{take-insert_sender_node}
use y_rpc.Core.Call.{
  awaits, call_timeout, call_request, start_call, started_call, prepared_call, proxy_call_begin,
}

if-true {ℓ} : {A : Type ℓ} (b : Bool) (x y : A) → b ≡ true → (if b then x else y) ≡ x
if-true b x y e = rw e

module _ {L : Type 0} where
  start_call-remote :
      (q : SendList L) (env : Env) (recver func : List ℕ) (request : Message) (st : Core L)
      → string_eq recver st.process_name ≡ false
      → env.malloc_node ≡ true
      → start_call q env recver func request st ≡ (pos 0, (insert_sender_node q env request st).1)
  unfolding start_call insert_sender_node
  start_call-remote q env recver func request st remote node = simp (remote, node)

  proxy_hash-insert_sender_node :
      (q : SendList L) (env : Env) (m : Message) (st : Core L)
      → env.malloc_node ≡ true
      → (insert_sender_node q env m st).1.proxy_hash ≡ st.proxy_hash
  unfolding insert_sender_node
  proxy_hash-insert_sender_node q env m st node = rw node

  responses-insert_sender_node :
      (q : SendList L) (env : Env) (m : Message) (st : Core L) (a : ℕ)
      → env.malloc_node ≡ true
      → (insert_sender_node q env m st).1.responses a ≡ st.responses a
  unfolding insert_sender_node
  responses-insert_sender_node q env m st a node = rw node

  -- The request of a call, with its user data.
  pub sent_request : TimeVal → Option TimeVal → List ℕ → List ℕ → List ℕ → List ℕ → Core L → Message
  sent_request comm_tv tv recver module_name func bytes st =
      update_body_size
        (record (call_request (call_timeout comm_tv tv) st.frame_id recver module_name func st) {
          user_data = holding bytes;
          user_data_len = length bytes;
        })

  -- The state in which the call is numbered and waits in the table.
  unfoldable registered : ℕ → Core L → Core L
  unfolding get_frame_id new_proxy
  registered proxy st =
      let numbered = (get_frame_id (note made (new_proxy proxy st))).1 in
      record numbered { proxy_hash = (Hash.insert st.frame_id proxy st.proxy_hash).1 }

  proxy_call_begin-runs :
      (q : SendList L) (env : Env) (comm_tv : TimeVal) (tv : Option TimeVal) (proxy : ℕ)
      (recver module_name func bytes : List ℕ) (st : Core L)
      → st.run_state ≡ true
      → env.malloc_body ≡ true
      → env.malloc_node ≡ true
      → string_eq recver st.process_name ≡ false
      → proxy_call_begin q env comm_tv true proxy
          (some recver)
          module_name
          func
          bytes
          (length bytes)
          true
          tv
          st
        ≡ done (
          awaits st.frame_id,
          (insert_sender_node q env
              (sent_request comm_tv tv recver module_name func bytes st)
              (registered proxy st)).1,
        )
  unfolding proxy_call_begin prepared_call start_call started_call registered get_frame_id new_proxy
      sent_request insert_sender_node
  proxy_call_begin-runs q env comm_tv tv proxy recver module_name func bytes st running ok node
        remote =
      let request = call_request (call_timeout comm_tv tv) st.frame_id recver module_name func st in
      let filled : malloc_body_data env.malloc_body bytes (length bytes) request
          ≡ done
              (pos 0, record request { user_data = holding bytes; user_data_len = length bytes }) =
        rw ok (malloc_body_data-holding bytes request) in
      let prepared : Core L = (get_frame_id (note made (new_proxy proxy st))).1 in
      if-true st.run_state _ _ running
      ∙ ap
          (λ (r : Run (ℤ × Message)). r >>= λ filled.
            prepared_call q env true proxy st.frame_id recver func true filled prepared)
          filled
      ∙ ap
          (started_call st.frame_id true (sent_request comm_tv tv recver module_name func bytes st))
          (start_call-remote q env recver func _ (registered proxy st) remote node)

  -- A two-way call to another process, of a process that runs, with mallocs and an `init` that
  -- succeed and with an ID below 2 ^ 32 that is free in the ordered table, waits: its request is
  -- the next that the core thread takes, it is a call request that expects an answer and carries
  -- the ID, the four names, the timeout and the data of the call with their length, and the ID
  -- leads to the call's proxy, which has no response yet.
  pub proxy_call_begin-remote :
      (q : SendList L) (env : Env) (comm_tv : TimeVal) (tv : Option TimeVal) (proxy : ℕ)
      (recver module_name func bytes : List ℕ) (st : Core L)
      → st.run_state ≡ true
      → env.malloc_body ≡ true
      → env.malloc_node ≡ true
      → string_eq recver st.process_name ≡ false
      → IsSorted st.proxy_hash
      → lookup st.frame_id st.proxy_hash ≡ none
      → st.frame_id < 2 ^ 32
      → (st' : Core L) × (request : Message) × (proxy_call_begin q env comm_tv true proxy
            (some recver)
            module_name
            func
            bytes
            (length bytes)
            true
            tv
            st
          ≡ done (awaits st.frame_id, st'))
        × ((take_sender_node q st').0 ≡ some request)
        × (request.message_head.message_id ≡ st.frame_id)
        × (request.message_head.one_way ≡ false)
        × (request.message_head.response ≡ false)
        × (request.body_head.sender ≡ st.process_name)
        × (request.body_head.recver ≡ recver)
        × (request.body_head.function ≡ func)
        × (request.user_data ≡ holding bytes)
        × (request.message_head.message_type ≡ mt_apply_pk)
        × (request.message_head.timevl ≡ call_timeout comm_tv tv)
        × (request.body_head.module_name ≡ module_name)
        × (request.user_data_len ≡ length bytes)
        × (Hash.find st.frame_id st'.proxy_hash ≡ proxy)
        × (st'.responses proxy ≡ none)
  unfolding sent_request call_request update_body_size Message.set_body_head
      Message.init_apply_request_message MsgHead.init_apply_request_msg MsgHead.set_body_size
      Body.set_sender Body.set_recver Body.set_module Body.set_function Hash.find registered
      get_frame_id new_proxy
  proxy_call_begin-remote q env comm_tv tv proxy recver module_name func bytes st running ok node
        remote sorted free numbered =
      let request = sent_request comm_tv tv recver module_name func bytes st in
      let written = insert-Writes st.frame_id proxy st.proxy_hash sorted free in
      let held : lookup st.frame_id (Hash.insert st.frame_id proxy st.proxy_hash).1 ≡ some proxy =
        rw (written.view st.frame_id, same_key_refl st.frame_id) in
      (
        (insert_sender_node q env request (registered proxy st)).1,
        request,
        proxy_call_begin-runs q env comm_tv tv proxy recver module_name func bytes st running ok
            node remote,
        (take-insert_sender_node q env request (registered proxy st) node).0,
        omega arith,
        refl,
        refl,
        refl,
        refl,
        refl,
        refl,
        refl,
        refl,
        refl,
        refl,
        rw (
          proxy_hash-insert_sender_node q env request (registered proxy st) node,
          held,
          Hash.find,
        ),
        responses-insert_sender_node q env request (registered proxy st) proxy node
            ∙ ground (arith, ==_refl proxy),
      )
