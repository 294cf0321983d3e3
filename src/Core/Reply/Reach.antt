-- ===== src/Core/Reply/Reach.antt =====
-- What setResponse answers reaches the caller, in this process or in another one.
use y_rpc.Common.{
  ℕ, ◌^◌, ◌<◌, ◌≡◌, ◌≢◌, refl, ◌∙◌, ap, true, false, List, length, ==_refl, some, pos, done,
  string_eq, arith,
}
use y_rpc.Container.Order.{uint_key}
use y_rpc.Head as MsgHead
use y_rpc.Head.{MessageHead, IsMessageHead}
use y_rpc.Head.RoundTrip.{received}
use y_rpc.Body
use y_rpc.Body.{BodyHead}
use y_rpc.Body.RoundTrip.{IsName, size-IsBodyHead}
use y_rpc.Message
use y_rpc.Message.{Message, new_message, update_body_size, serialize_message, analyse_message}
use y_rpc.Message.Wire.{
  IsMessage, holding, wire, length-wire, analysed, serialize_message-wire, analyse_message-wire,
  malloc_body_data-holding,
}
use y_rpc.Hash
use y_rpc.Core.{SendList, Core, Env, made, delivered, note, rpcsuccess}
use y_rpc.Core.Queue.{insert_sender_node, take_sender_node, wakeup_one_thread, set_response_of}
use y_rpc.Core.Queue.Laws.{take-insert_sender_node}
use y_rpc.Core.Reply.{answer, filled_response, send_response, handed_on, set_response}
use y_rpc.Core.Receive.{dispatch, receive_apply, received_message, analyse_receive_data}

-- The response, with its user data.
pub reply : {L : Type 0} → Message → List ℕ → Core L → Message
reply request bytes st = update_body_size (record (answer rpcsuccess request st) {
  user_data = holding bytes;
  user_data_len = length bytes;
})

-- A request that setResponse answers with a message, and what must fit for it.
pub record Answerable {L : Type 0} (request : Message) (st : Core L) : Type 0 where
  pub running : st.run_state ≡ true
  pub wanted : request.message_head.one_way ≡ false
  pub numbered : request.message_head.message_id < 2 ^ 32
  pub caller_fits : IsName request.body_head.sender
  pub callee_fits : IsName st.process_name
  pub module_fits : IsName request.body_head.module_name
  pub function_fits : IsName request.body_head.function

module _ {L : Type 0} where
  reply-IsMessage :
      (request : Message) (bytes : List ℕ) (st : Core L)
      → Answerable request st
      → IsMessage (reply request bytes st) bytes
  unfolding reply answer update_body_size Message.set_body_head Message.init_apply_response_message
      MsgHead.init_apply_response_msg MsgHead.set_body_size new_message Body.set_sender
      Body.set_recver Body.set_module Body.set_function Body.clear MsgHead.init
  reply-IsMessage request bytes st h = record {
    head_fits = omega (arith, h.numbered);
    names_fit = record {
      sender_fits = h.callee_fits;
      recver_fits = h.caller_fits;
      module_fits = h.module_fits;
      function_fits = h.function_fits;
    };
    held = refl;
    measured = refl;
  }

  set_response-sends :
      (q : SendList L) (env : Env) (request : Message) (bytes : List ℕ) (st : Core L)
      → Answerable request st
      → env.malloc_body ≡ true
      → set_response q env (some request) bytes (length bytes) st
        ≡ send_response q env (reply request bytes st) (note made st)
  unfolding set_response filled_response reply
  set_response-sends q env request bytes st h ok =
      let filled : Message.malloc_body_data env.malloc_body bytes (length bytes)
            (answer rpcsuccess request st)
          ≡ done (
            pos 0,
            record (answer rpcsuccess request st) {
              user_data = holding bytes;
              user_data_len = length bytes;
            },
          ) =
        rw ok (malloc_body_data-holding bytes (answer rpcsuccess request st)) in
      simp (h.running, h.wanted, filled)

  send_response-queues :
      (q : SendList L) (env : Env) (request : Message) (bytes : List ℕ) (st : Core L)
      → string_eq st.process_name request.body_head.sender ≡ false
      → env.malloc_node ≡ true
      → send_response q env (reply request bytes st) (note made st)
        ≡ done (pos 0, (insert_sender_node q env (reply request bytes st) (note made st)).1)
  unfolding send_response reply answer update_body_size Message.set_body_head
      Message.init_apply_response_message MsgHead.set_body_size insert_sender_node handed_on
      Body.set_sender Body.set_recver Body.set_module Body.set_function
  send_response-queues q env request bytes st remote node = simp (remote, node)

  -- What the caller reads of the response's head.
  module _ (request : Message) (bytes : List ℕ) (st : Core L) where
    reply-head :
        request.message_head.message_id < 2 ^ 32
        → (let m = (analysed (reply request bytes st) bytes).message_head in
            (m.message_type ≡ 3)
            × (m.response ≡ true)
            × (m.message_id ≡ request.message_head.message_id)
            × (m.status_code ≡ 0))
    unfolding analysed received reply answer update_body_size Message.set_body_head
        Message.init_apply_response_message MsgHead.init_apply_response_msg MsgHead.set_body_size
    reply-head numbered = (refl, refl, omega arith, refl)

  -- A response of the apply type goes to the proxy that waits for its ID.
  dispatch-response :
      (q : SendList L) (env : Env) (fdp proxy : ℕ) (m : Message) (st : Core L)
      → m.message_head.message_type ≡ 3
      → m.message_head.response ≡ true
      → Hash.find m.message_head.message_id st.proxy_hash ≡ proxy
      → proxy ≢ 0
      → dispatch q env fdp m st
        ≡ done (
          pos 0,
          note (delivered proxy m) (record st { responses = set_response_of proxy m st.responses }),
        )
  unfolding dispatch receive_apply wakeup_one_thread handed_on
  dispatch-response q env fdp proxy m st typed responds waits there = ground arith

  analyse_receive_data-response :
      (q : SendList L) (env : Env) (fdp proxy : ℕ) (m : Message) (data_ptr : List ℕ) (st : Core L)
      → analyse_message env.malloc_body data_ptr (length data_ptr) ≡ done (pos 0, m)
      → m.message_head.message_type ≡ 3
      → m.message_head.response ≡ true
      → Hash.find m.message_head.message_id st.proxy_hash ≡ proxy
      → proxy ≢ 0
      → analyse_receive_data q env fdp data_ptr (length data_ptr) st
        ≡ done (
          pos 0,
          note
              (delivered proxy m)
              (record (note made st) { responses = set_response_of proxy m st.responses }),
        )
  unfolding analyse_receive_data received_message
  analyse_receive_data-response q env fdp proxy m data_ptr st parsed typed responds waits there =
      rw parsed (dispatch-response q env fdp proxy m (note made st) typed responds waits there)

  -- While the process runs, a response to a two-way request of a caller in another process, with
  -- names and an ID that fit, user data below 2 ^ 32 bytes and mallocs that succeed, is queued: the
  -- core thread takes it next, it can be written, and a caller that reads it in one piece gives it
  -- to the proxy that waits for the request's ID, an address that is not NULL, with the status 0
  -- and the user data of the answer, and its table of waiting calls stays as it is.
  pub set_response-reaches :
      (q : SendList L) (env : Env) (request : Message) (bytes : List ℕ) (st : Core L)
      (fdp proxy : ℕ) (caller : Core L)
      → Answerable request st
      → string_eq st.process_name request.body_head.sender ≡ false
      → env.malloc_body ≡ true
      → env.malloc_node ≡ true
      → Hash.find request.message_head.message_id caller.proxy_hash ≡ proxy
      → proxy ≢ 0
      → length bytes < 2 ^ 32
      → (st' : Core L) × (response : Message) × (packet : List ℕ) × (caller' : Core L)
        × (delivery : Message) × (set_response q env (some request) bytes (length bytes) st
            ≡ done (pos 0, st'))
        × ((take_sender_node q st').0 ≡ some response)
        × (serialize_message true response ≡ done (pos 0, some packet))
        × (analyse_receive_data q env fdp packet (length packet) caller ≡ done (pos 0, caller'))
        × (caller'.responses proxy ≡ some delivery)
        × (caller'.proxy_hash ≡ caller.proxy_hash)
        × (delivery.message_head.message_id ≡ request.message_head.message_id)
        × (delivery.message_head.status_code ≡ 0)
        × (delivery.user_data ≡ holding bytes)
        × (delivery.user_data_len ≡ length bytes)
  unfolding analysed
  set_response-reaches q env request bytes st fdp proxy caller h remote ok node waits there short =
      let fits = reply-IsMessage request bytes st h in
      let m = reply request bytes st in
      let delivery = analysed m bytes in
      let parsed : analyse_message env.malloc_body (wire m bytes) (length (wire m bytes))
          ≡ done (pos 0, delivery) =
        rw ok (
          analyse_message-wire m bytes fits.head_fits fits.names_fit
            (omega (arith, length-wire m bytes, size-IsBodyHead m.body_head fits.names_fit))) in
      let head = reply-head request bytes st h.numbered in
      let queue_first = take-insert_sender_node q env m (note made st) node in
      (
        (insert_sender_node q env m (note made st)).1,
        m,
        wire m bytes,
        note (delivered proxy delivery) (record (note made caller) {
          responses = set_response_of proxy delivery caller.responses;
        }),
        delivery,
        set_response-sends q env request bytes st h ok
            ∙ send_response-queues q env request bytes st remote node,
        queue_first.0,
        serialize_message-wire m bytes fits,
        analyse_receive_data-response q env fdp proxy delivery (wire m bytes) caller parsed head.0
            head.1 (ap (λ (id : ℕ). Hash.find id caller.proxy_hash) head.2 ∙ waits) there,
        ground (arith, ==_refl proxy),
        refl,
        head.2,
        head.3,
        refl,
        refl,
      )
