-- ===== src/Core/Receive/Owners.antt =====
-- analyseReceiveData as a whole against the count of message objects.
use y_rpc.Common.{
  ℕ, ◌+◌, ◌<◌, ◌^◌, ◌≡◌, refl, ◌∙◌, Bool, true, false, List, [], ◌∷◌, ◌++◌, length, ◌==◌,
  Option-cases, inl, inr, none, some, ℤ, pos, negsuc, done, if◌then◌else◌, string_eq, arith,
}
use y_rpc.Container.Order.{uint_key, string_key}
use y_rpc.Head.{mt_link_pk, mt_beat_pk, mt_apply_pk, mt_obser_pk}
use y_rpc.Message
use y_rpc.Message.{
  Message, UserData, null, block, freed, new_message, malloc_body_data, release_body_data,
  update_body_size, serialize_message, copy_user_data,
}
use y_rpc.Body.RoundTrip.{size-IsBodyHead}
use y_rpc.Message.Wire.{IsMessage, wire, length-wire, analysed, analyse_message-wire}
use y_rpc.Message.{analyse_message}
use y_rpc.StringHash
use y_rpc.Observer
use y_rpc.Observer.{ObserverHash}
use y_rpc.Core.{
  SendList, Core, Env, made, note, invokeobserverfunc, registerobserverfunc, observerappendstring,
  unregisterobserverfunc,
}
use y_rpc.Core.Receive.{
  register_observer_handler, receive_invoke, receive_register, receive_observer, dispatch,
  received_message, analyse_receive_data,
}
use y_rpc.Core.Receive.Fate.{weight}
use y_rpc.Core.Receive.Fates.{IsWeight, dropped, dispatch-Weighs}
use y_rpc.Core.Receive.Ledger.{
  made_count, ended_count, IsLive, Ends, release_with-Ends, wakeup_one_thread-Ends, bind-Ends,
  weigh-Ends, made-Ends, dropped-Ends, add_work-Ends, response_error_code_ack-Ends, if-Ends,
  if-Ends-lost,
}
use y_rpc.Core.Receive.Balance.{
  receive_apply-Ends, receive_link-Ends, done-Ends, observer_registered-Ends,
}

analysed-IsLive : (m : Message) (bytes : List ℕ) → IsLive (analysed m bytes)
unfolding analysed
analysed-IsLive m [] = λ e. cc
analysed-IsLive m (c ∷ cs) = λ e. cc

-- The message objects that have no owner after a message was handled: the request of a link, an
-- observer request for a function that is not known, and the response that is made for an
-- observed object that does not exist.
unfoldable pub forgotten_object : List ℕ → ObserverHash → ℕ
forgotten_object key m = elim (Observer.find key m) [ none ↦ 1 | some fds ↦ 0 ]

unfoldable pub forgotten_observer : Message → ObserverHash → ℕ
forgotten_observer m observers =
    if m.message_head.response
    then 0
    else (if string_eq invokeobserverfunc m.body_head.function
        then 0
        else (if string_eq registerobserverfunc m.body_head.function
            then forgotten_object m.body_head.module_name observers
            else (if string_eq unregisterobserverfunc m.body_head.function
                then forgotten_object m.body_head.module_name observers
                else 1)))

unfoldable pub forgotten : Message → ObserverHash → ℕ
forgotten m observers =
    if m.message_head.message_type == mt_link_pk
    then (if m.message_head.response then 0 else 1)
    else (if m.message_head.message_type == mt_beat_pk
        then 0
        else (if m.message_head.message_type == mt_apply_pk
            then 0
            else (if m.message_head.message_type == mt_obser_pk
                then forgotten_observer m observers
                else 0)))

module _ {L : Type 0} (q : SendList L) (env : Env) where
  register_observer_handler-Ends :
      (fdp : ℕ) (m : Message) (flag : Bool) (st : Core L)
      → Ends 0
          (forgotten_object m.body_head.module_name st.observer_connect_hash)
          st
          (register_observer_handler q env fdp m flag st)
  unfolding register_observer_handler forgotten_object
  register_observer_handler-Ends fdp m flag st =
      elim (Option-cases (Observer.find m.body_head.module_name st.observer_connect_hash)) [
        | inl e ↦
            rw (e, register_observer_handler, forgotten_object)
              (made-Ends st _ (
                dropped-Ends (note made st) _ (
                  bind-Ends (note made st) _ _
                    (response_error_code_ack-Ends q env m _ (note made st))
                    (λ c st'. done-Ends (negsuc 0) st'))))
        | inr (fds, e) ↦
            rw (e, register_observer_handler, forgotten_object)
              (made-Ends st _ (observer_registered-Ends q env fdp m flag (note made st)))
      ]

  receive_register-Ends :
      (fdp : ℕ) (m : Message) (flag : Bool) (st : Core L)
      → IsLive m
      → Ends 1
          (forgotten_object m.body_head.module_name st.observer_connect_hash)
          st
          (receive_register q env fdp m flag st)
  unfolding receive_register
  receive_register-Ends fdp m flag st live = weigh-Ends st _ (omega arith) (omega arith) (
      bind-Ends st _ _ (register_observer_handler-Ends fdp m flag st)
        (λ c st'. release_with-Ends (pos 0) m st' live))

  receive_observer-Ends :
      (fdp : ℕ) (m : Message) (st : Core L)
      → IsLive m
      → Ends 1 (forgotten_observer m st.observer_connect_hash) st (receive_observer q env fdp m st)
  unfolding receive_observer receive_invoke forgotten_observer Message.set_handler
  receive_observer-Ends fdp m st live =
      let func_handler =
        StringHash.find (m.body_head.module_name ++ observerappendstring) st.observer_func_hash in
      if-Ends-lost st m.message_head.response _ _ (wakeup_one_thread-Ends m st live) (
        if-Ends-lost st (string_eq invokeobserverfunc m.body_head.function) _ _
          (if-Ends st (func_handler == 0) _ _ (release_with-Ends (negsuc 0) m st live)
            (add_work-Ends env (Message.set_handler func_handler m) st live))
          (if-Ends-lost st (string_eq registerobserverfunc m.body_head.function) _ _
            (receive_register-Ends fdp m true st live)
            (if-Ends-lost st (string_eq unregisterobserverfunc m.body_head.function) _ _
              (receive_register-Ends fdp m false st live)
              (record { code = pos 0; state = st; returns = refl; balance = omega arith }))))

  dispatch-Ends :
      (fdp : ℕ) (m : Message) (st : Core L)
      → IsLive m
      → Ends 1 (forgotten m st.observer_connect_hash) st (dispatch q env fdp m st)
  unfolding dispatch forgotten
  dispatch-Ends fdp m st live =
      if-Ends-lost st (m.message_head.message_type == mt_link_pk) _ _
        (receive_link-Ends env fdp m st live)
        (if-Ends-lost st (m.message_head.message_type == mt_beat_pk) _ _
          (release_with-Ends (pos 0) m st live)
          (if-Ends-lost st (m.message_head.message_type == mt_apply_pk) _ _
            (receive_apply-Ends q env m st live)
            (if-Ends-lost st (m.message_head.message_type == mt_obser_pk) _ _
              (receive_observer-Ends fdp m st live) (release_with-Ends (pos 0) m st live))))

  analyse_receive_data-dispatch :
      (fdp : ℕ) (data_ptr : List ℕ) (len : ℕ) (m : Message) (st : Core L)
      → analyse_message env.malloc_body data_ptr len ≡ done (pos 0, m)
      → analyse_receive_data q env fdp data_ptr len st ≡ dispatch q env fdp m (note made st)
  unfolding analyse_receive_data received_message
  analyse_receive_data-dispatch fdp data_ptr len m st e = rw e

  received_message-Weighs :
      (f : Message → ℕ) (fdp : ℕ) (m : Message) (st st' : Core L) (code : ℤ)
      → IsWeight f m
      → dispatch q env fdp m (note made st) ≡ done (code, st')
      → weight f st'.trace ≡ (if dropped m then 0 else f m) + weight f st.trace
  unfolding weight
  received_message-Weighs f fdp m st st' code weighs e =
      rw e at (dispatch-Weighs f q env fdp m (note made st) weighs)

  -- A sendable message with less than 2 ^ 32 bytes of user data that arrives whole in one read, and
  -- that malloc succeeds for, is handled to the end. Of the message objects that were made
  -- meanwhile, the received one among them, as many were released, put into the send list, or given
  -- to the thread pool or to a waiting caller, as were made, less the number that `forgotten`
  -- tells. The received message is among them exactly if it is not `dropped`: for any weight that
  -- does not depend on the handler of a message and, if the received message is a request, is 0 on
  -- responses, the messages that were released or given away weigh together as much as the received
  -- one, or nothing if that one is `dropped`.
  pub analyse_receive_data-forgotten :
      (f : Message → ℕ) (fdp : ℕ) (m : Message) (bytes : List ℕ) (st : Core L)
      → env.malloc_body ≡ true
      → IsMessage m bytes
      → length bytes < 2 ^ 32
      → IsWeight f (analysed m bytes)
      → (code : ℤ) × (st' : Core L) × (analyse_receive_data q env fdp
            (wire m bytes)
            (length (wire m bytes))
            st
          ≡ done (code, st'))
        × (made_count st'.trace + ended_count st.trace
            ≡ forgotten (analysed m bytes) st.observer_connect_hash
              + (made_count st.trace + ended_count st'.trace))
        × (weight f st'.trace
            ≡ (if dropped (analysed m bytes) then 0 else f (analysed m bytes)) + weight f st.trace)
  unfolding made_count ended_count
  analyse_receive_data-forgotten f fdp m bytes st ok fits short weighs =
      let h = dispatch-Ends fdp (analysed m bytes) (note made st) (analysed-IsLive m bytes) in
      let parsed : analyse_message env.malloc_body (wire m bytes) (length (wire m bytes))
          ≡ done (pos 0, analysed m bytes) =
        rw ok (
          analyse_message-wire m bytes fits.head_fits fits.names_fit
            (omega (arith, length-wire m bytes, size-IsBodyHead m.body_head fits.names_fit))) in
      (
        h.code,
        h.state,
        analyse_receive_data-dispatch fdp (wire m bytes) (length (wire m bytes)) _ st parsed
            ∙ h.returns,
        omega (arith, h.balance),
        received_message-Weighs f fdp (analysed m bytes) st h.state h.code weighs h.returns,
      )
