-- ===== src/Core/Observe/Reach.antt =====
-- From invokeObserver over the core thread to the handler of an observer in another process.
use y_rpc.Common.{
  ℕ, ◌≡◌, ◌≢◌, refl, ◌∙◌, ap, true, false, List, ◌∷◌, ◌++◌, length, some, pos, is_zero, done,
  string_eq, arith,
}
use mathlib.Core.List.{map, reverse}
use y_rpc.Head as MsgHead
use y_rpc.Head.{IsMessageHead, mt_obser_pk}
use y_rpc.Head.RoundTrip.{received}
use y_rpc.Body
use y_rpc.Body.RoundTrip.{size-IsBodyHead}
use y_rpc.Message
use y_rpc.Message.{
  Message, new_message, update_body_size, serialize_message, analyse_message, release_body_data,
}
use y_rpc.Message.Wire.{holding, wire, length-wire, analysed, analyse_message-wire}
use y_rpc.StringHash
use y_rpc.Observer
use y_rpc.Observer.{ObserverHash}
use y_rpc.Core.{
  SendList, Core, Env, made, queued, sent, released, added_work, note, invokeobserverfunc,
  observerappendstring,
}
use y_rpc.Core.Receive.{
  dispatch, receive_observer, receive_invoke, add_work, received_message, analyse_receive_data,
}
use y_rpc.Core.Observe.{invoke_request, invoke_observer}
use y_rpc.Core.Observe.Owners.{invocation}
use y_rpc.Core.Sender.{idle, sender_take}
use y_rpc.Core.Observe.Sending.{
  Invokable, invocation-IsMessage, queued_invocation, sent_invocation, invoke_observer-queues,
  sender_take-invocation,
}

module _ {L : Type 0} where
  dispatch-invocation :
      (q : SendList L) (env : Env) (fdp func : ℕ) (m : Message) (st : Core L)
      → m.message_head.message_type ≡ mt_obser_pk
      → m.message_head.response ≡ false
      → m.body_head.function ≡ invokeobserverfunc
      → is_zero env.add_work ≡ true
      → StringHash.find (m.body_head.module_name ++ observerappendstring) st.observer_func_hash
        ≡ func
      → func ≢ 0
      → dispatch q env fdp m st ≡ done (pos 0, note (added_work (Message.set_handler func m)) st)
  unfolding dispatch receive_observer receive_invoke add_work string_eq
  dispatch-invocation q env fdp func m st typed asks function works registered there = ground arith

  -- What the observer reads of the invocation's heads.
  invocation-head :
      (observed bytes : List ℕ) (st : Core L)
      → (let m = analysed (invocation observed bytes st) bytes in
          (m.message_head.message_type ≡ mt_obser_pk)
          × (m.message_head.response ≡ false)
          × (m.body_head.function ≡ invokeobserverfunc)
          × (m.body_head.module_name ≡ observed))
  unfolding analysed received invocation invoke_request update_body_size Message.set_body_head
      Message.init_observer_invoke_message MsgHead.init_observer_invoke_msg MsgHead.set_body_size
      Body.set_sender Body.set_recver Body.set_module Body.set_function
  invocation-head observed bytes st = (refl, refl, refl, refl)

  analyse_receive_data-invocation :
      (q : SendList L) (env : Env) (fdp func : ℕ) (observed bytes : List ℕ) (st observer : Core L)
      → Invokable observed bytes st
      → env.malloc_body ≡ true
      → is_zero env.add_work ≡ true
      → StringHash.find (observed ++ observerappendstring) observer.observer_func_hash ≡ func
      → func ≢ 0
      → (let m = invocation observed bytes st in
          analyse_receive_data q env fdp (wire m bytes) (length (wire m bytes)) observer
          ≡ done (
            pos 0,
            note (added_work (Message.set_handler func (analysed m bytes))) (note made observer),
          ))
  unfolding analyse_receive_data received_message
  analyse_receive_data-invocation q env fdp func observed bytes st observer h ok works registered
        there =
      let m = invocation observed bytes st in
      let fits = invocation-IsMessage observed bytes st h in
      let (typed, asks, function, module_name) = invocation-head observed bytes st in
      let parsed : analyse_message env.malloc_body (wire m bytes) (length (wire m bytes))
          ≡ done (pos 0, analysed m bytes) =
        rw ok (
          analyse_message-wire m bytes fits.head_fits fits.names_fit (
            omega (
              arith,
              h.data_fits,
              length-wire m bytes,
              size-IsBodyHead m.body_head fits.names_fit,
            ))) in
      rw parsed (
        dispatch-invocation q env fdp func (analysed m bytes) (note made observer) typed asks
          function works
          (ap (λ k. StringHash.find (k ++ observerappendstring) observer.observer_func_hash)
              module_name
            ∙ registered)
          there)

  -- While the process runs, invokeObserver for an object that other processes observe and that this
  -- one has no handler for, with a name, a process name, an ID and data that fit and mallocs that
  -- succeed, returns 0 and queues one message. In its next round the core thread sends this message
  -- once on each of the connections that observe the object, in their order, and releases it, and
  -- the list is as it was before. An observer that reads it in one piece and whose malloc and
  -- addWork succeed gives its registered handler the name of the object and the data.
  pub invoke_observer-reaches :
      (q : SendList L) (env copy there : Env) (observed bytes fds : List ℕ) (fd fdp func : ℕ)
      (st observer : Core L)
      → Invokable observed bytes st
      → env.malloc_body ≡ true
      → env.malloc_node ≡ true
      → Observer.find observed st.observer_connect_hash ≡ some (fd ∷ fds)
      → StringHash.find (observed ++ observerappendstring) st.observer_func_hash ≡ 0
      → there.malloc_body ≡ true
      → is_zero there.add_work ≡ true
      → StringHash.find (observed ++ observerappendstring) observer.observer_func_hash ≡ func
      → func ≢ 0
      → (st' st'' : Core L) × (m : Message) × (packet : List ℕ) × (call : Message)
        × (invoke_observer q env copy observed bytes (length bytes) st ≡ done (pos 0, st'))
        × (sender_take q st' ≡ done (idle, st''))
        × (st''.send_head ≡ st.send_head)
        × (st''.trace
            ≡ released m
              ∷ (reverse (map (λ fd'. sent fd' packet) (fd ∷ fds)) ++ (queued m ∷ made ∷ st.trace)))
        × (analyse_receive_data q there fdp packet (length packet) observer
            ≡ done (pos 0, note (added_work call) (note made observer)))
        × (call.handler ≡ func)
        × (call.body_head.module_name ≡ observed)
        × (call.user_data ≡ holding bytes)
        × (call.user_data_len ≡ length bytes)
  unfolding sent_invocation analysed Message.set_handler
  invoke_observer-reaches q env copy there observed bytes fds fd fdp func st observer h body node
        observes remote body' works registered real =
      let m = invocation observed bytes st in
      (
        queued_invocation q observed bytes st,
        sent_invocation q observed bytes (fd ∷ fds) st,
        m,
        wire m bytes,
        Message.set_handler func (analysed m bytes),
        invoke_observer-queues q env copy observed bytes fds fd st h.running body node observes
            remote,
        sender_take-invocation q observed bytes fds fd st h observes,
        refl,
        refl,
        analyse_receive_data-invocation q there fdp func observed bytes st observer h body' works
            registered real,
        refl,
        (invocation-head observed bytes st).3,
        refl,
        refl,
      )
