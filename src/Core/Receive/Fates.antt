-- ===== src/Core/Receive/Fates.antt =====
-- What the cases of analyseReceiveData do with the message that was received.
use y_rpc.Common.{
  ℕ, ◌+◌, ◌≡◌, refl, Bool, true, false, [], ◌∷◌, ◌++◌, ◌==◌, ℤ, pos, negsuc, done, some, none,
  Option-cases, Bool-cases, inl, inr, bind-Holds-all, if◌then◌else◌, string_eq, arith,
}
use y_rpc.Container.Order.{uint_key, string_key}
use y_rpc.Head.{mt_link_pk, mt_beat_pk, mt_apply_pk, mt_obser_pk}
use y_rpc.Message
use y_rpc.Message.{
  Message, block, null, new_message, malloc_body_data, release_body_data, update_body_size,
  serialize_message, copy_user_data,
}
use y_rpc.Body.{read_bytes}
use y_rpc.StringHash
use y_rpc.Observer
use y_rpc.Observer.{ObserverHash}
use y_rpc.Core.{
  SendList, Core, Env, made, note, invokeobserverfunc, registerobserverfunc, unregisterobserverfunc,
  observerappendstring, sent,
}
use y_rpc.Core.Queue.{insert_sender_node}
use y_rpc.Core.Reply.{delete_message, answer, release_with, handed_on, response_error_code_ack}
use y_rpc.Core.Link.{response_link, answer_link, settle_link, link_response}
use y_rpc.Core.Receive.{
  observer_registered, register_observer_handler, receive_link, receive_apply, receive_invoke,
  receive_register, receive_observer, dispatch,
}
use y_rpc.Core.Receive.Fate.{
  weight, Weighs, release_with-Weighs, wakeup_one_thread-Weighs, insert_sender_node-Weighs,
  add_work-Weighs, bind-Weighs, from-Weighs, weigh-Weighs, dropped-Weighs, same-Weighs,
}
use y_rpc.Core.Receive.Balance.{trace-settle_link}

-- The messages that analyseReceiveData neither releases nor gives to another owner: the request of
-- a link, and an observer request for a function that is not known.
unfoldable pub dropped_observer : Message → Bool
dropped_observer m =
    if m.message_head.response
    then false
    else (if string_eq invokeobserverfunc m.body_head.function
        then false
        else (if string_eq registerobserverfunc m.body_head.function
            then false
            else (if string_eq unregisterobserverfunc m.body_head.function then false else true)))

unfoldable pub dropped : Message → Bool
dropped m =
    if m.message_head.message_type == mt_link_pk
    then (if m.message_head.response then false else true)
    else (if m.message_head.message_type == mt_beat_pk
        then false
        else (if m.message_head.message_type == mt_apply_pk
            then false
            else (if m.message_head.message_type == mt_obser_pk
                then dropped_observer m
                else false)))

-- A weight that the field `m_handler` does not change, and that an answer to a request does not
-- have
unfoldable pub IsWeight : (Message → ℕ) → Message → Type 0
IsWeight f m =
    ((handler : ℕ) (n : Message) → f (Message.set_handler handler n) ≡ f n)
    × (m.message_head.response ≡ false → (n : Message) → n.message_head.response ≡ true → f n ≡ 0)

module _ {L : Type 0} (f : Message → ℕ) (q : SendList L) (env : Env) where
  response_error_code_ack-Weighs :
      (m : Message) (status : ℕ) (st : Core L)
      → ((n : Message) → n.message_head.response ≡ true → f n ≡ 0)
      → Weighs f 0 st (response_error_code_ack q env m status st)
  unfolding response_error_code_ack malloc_body_data answer update_body_size weight handed_on
      insert_sender_node Message.set_body_head Message.init_apply_response_message
  response_error_code_ack-Weighs m status st light =
      weigh-Weighs f _ 0 st (response_error_code_ack q env m status st) (light _ refl)
        (insert_sender_node-Weighs f q env _ (note made st))

  observer_registered-Weighs :
      (fdp : ℕ) (m : Message) (flag : Bool) (st : Core L)
      → ((n : Message) → n.message_head.response ≡ true → f n ≡ 0)
      → Weighs f 0 st (observer_registered q env fdp m flag st)
  unfolding observer_registered malloc_body_data update_body_size handed_on insert_sender_node
      Message.set_body_head Message.init_observer_response_message
  observer_registered-Weighs fdp m flag st light =
      let key = m.body_head.module_name in
      let table =
        (if flag
          then (Observer.insert_fd key fdp st.observer_connect_hash).1
          else Observer.remove_fd key fdp st.observer_connect_hash) in
      weigh-Weighs f _ 0 st (observer_registered q env fdp m flag st) (light _ refl)
        (insert_sender_node-Weighs f q env _ (record st { observer_connect_hash = table }))

  settled-Weighs :
      (fdp : ℕ) (m response : Message) (st : Core L)
      → response.message_head.response ≡ true
      → ((n : Message) → n.message_head.response ≡ true → f n ≡ 0)
      → Weighs f 0 st (answer_link fdp m (pos 0, response) st)
  unfolding answer_link weight update_body_size
  settled-Weighs fdp m response st answers light =
      let settled = settle_link fdp m.body_head.sender st in
      let unchanged : weight f settled.1.trace ≡ weight f st.trace =
        rw (trace-settle_link fdp m.body_head.sender st) refl in
      bind-Holds-all (λ (s : ℤ × Core L). weight f s.1.trace ≡ 0 + weight f st.trace)
        (serialize_message true (update_body_size response))
        (λ wire.
          release_with (pos 0) (update_body_size response)
            (note (sent settled.0 (elim wire.1 [ none ↦ [] | some bytes ↦ bytes ])) settled.1))
        (λ wire.
          let after =
            note (sent settled.0 (elim wire.1 [ none ↦ [] | some bytes ↦ bytes ])) settled.1 in
          from-Weighs f 0 st after (release_with (pos 0) (update_body_size response) after)
            unchanged
            (weigh-Weighs f (f (update_body_size response)) 0 after _
              (light (update_body_size response) answers)
              (release_with-Weighs f (pos 0) (update_body_size response) after)))

  response_link-Weighs :
      (fdp : ℕ) (m : Message) (st : Core L)
      → ((n : Message) → n.message_head.response ≡ true → f n ≡ 0)
      → Weighs f 0 st (response_link env fdp m st)
  unfolding response_link malloc_body_data read_bytes link_response answer_link delete_message
      weight Message.init_link_response_message Message.set_sender Message.set_recver
  response_link-Weighs fdp m st light = elim (Bool-cases env.malloc_body) [
    | inl ok ↦ rw ok (
        settled-Weighs fdp m
          (record (link_response m st) { user_data = block (1 ∷ []); user_data_len = 1 })
          (note made st) refl light)
    | inr failed ↦ rw failed (
        weigh-Weighs f (f (record (link_response m st) { user_data = null })) 0 st
          (done (
            negsuc 0,
            delete_message (record (link_response m st) { user_data = null }) (note made st),
          ))
          (light (record (link_response m st) { user_data = null }) refl) refl)
  ]

  register_observer_handler-Weighs :
      (fdp : ℕ) (m : Message) (flag : Bool) (st : Core L)
      → ((n : Message) → n.message_head.response ≡ true → f n ≡ 0)
      → Weighs f 0 st (register_observer_handler q env fdp m flag st)
  unfolding register_observer_handler weight
  register_observer_handler-Weighs fdp m flag st light =
      elim (Option-cases (Observer.find m.body_head.module_name st.observer_connect_hash)) [
        | inl e ↦
            rw (e, register_observer_handler)
              (bind-Weighs f 0 0 (note made st) _ _
                (response_error_code_ack-Weighs m _ (note made st) light) (λ s. omega arith))
        | inr (fds, e) ↦
            rw (e, register_observer_handler)
              (observer_registered-Weighs fdp m flag (note made st) light)
      ]

  receive_register-Weighs :
      (fdp : ℕ) (m : Message) (flag : Bool) (st : Core L)
      → ((n : Message) → n.message_head.response ≡ true → f n ≡ 0)
      → Weighs f (f m) st (receive_register q env fdp m flag st)
  unfolding receive_register
  receive_register-Weighs fdp m flag st light = weigh-Weighs f (f m + 0) (f m) st _ (omega arith) (
      bind-Weighs f 0 (f m) st _ _ (register_observer_handler-Weighs fdp m flag st light)
        (λ s. release_with-Weighs f (pos 0) m s.1))

  receive_apply-Weighs :
      (m : Message) (st : Core L) → IsWeight f m → Weighs f (f m) st (receive_apply q env m st)
  unfolding receive_apply IsWeight
  receive_apply-Weighs m st (same, light) =
      let func_handler = StringHash.find m.body_head.function st.service_func_hash in
      same-Weighs f (f m) st m.message_head.response _ _
        (λ answers. wakeup_one_thread-Weighs f m st)
        (λ asks.
          same-Weighs f (f m) st (func_handler == 0) _ _
            (λ unknown. weigh-Weighs f (f m + 0) (f m) st _ (omega arith) (
              bind-Weighs f 0 (f m) st _ _ (response_error_code_ack-Weighs m _ st (light asks))
                (λ s. release_with-Weighs f (negsuc 0) m s.1)))
            (λ known.
              weigh-Weighs f _ (f m) st _ (same func_handler m)
                (add_work-Weighs f env (Message.set_handler func_handler m) st)))

  receive_link-Weighs :
      (fdp : ℕ) (m : Message) (st : Core L)
      → IsWeight f m
      → Weighs f
          (if (if m.message_head.response then false else true) then 0 else f m)
          st
          (receive_link env fdp m st)
  unfolding receive_link IsWeight
  receive_link-Weighs fdp m st (same, light) =
      dropped-Weighs f (f m) st m.message_head.response false true _ _
        (λ answers.
          weigh-Weighs f _ (f m) st _ (same fdp m)
            (wakeup_one_thread-Weighs f (Message.set_handler fdp m) st))
        (λ asks. response_link-Weighs fdp m st (light asks))

  receive_observer-Weighs :
      (fdp : ℕ) (m : Message) (st : Core L)
      → IsWeight f m
      → Weighs f (if dropped_observer m then 0 else f m) st (receive_observer q env fdp m st)
  unfolding receive_observer receive_invoke dropped_observer IsWeight
  receive_observer-Weighs fdp m st (same, light) =
      let func_handler =
        StringHash.find (m.body_head.module_name ++ observerappendstring) st.observer_func_hash in
      dropped-Weighs f (f m) st m.message_head.response false _ _ _
        (λ answers. wakeup_one_thread-Weighs f m st)
        (λ asks.
          dropped-Weighs f (f m) st (string_eq invokeobserverfunc m.body_head.function) false _ _ _
            (λ invokes.
              same-Weighs f (f m) st (func_handler == 0) _ _
                (λ unknown. release_with-Weighs f (negsuc 0) m st)
                (λ known.
                  weigh-Weighs f _ (f m) st _ (same func_handler m)
                    (add_work-Weighs f env (Message.set_handler func_handler m) st)))
            (λ no_invocation.
              dropped-Weighs f (f m) st (string_eq registerobserverfunc m.body_head.function) false
                _ _ _ (λ registers. receive_register-Weighs fdp m true st (light asks))
                (λ no_registration.
                  dropped-Weighs f (f m) st (string_eq unregisterobserverfunc m.body_head.function)
                    false true _ _
                    (λ unregisters. receive_register-Weighs fdp m false st (light asks))
                    (λ unknown. omega arith))))

  pub dispatch-Weighs :
      (fdp : ℕ) (m : Message) (st : Core L)
      → IsWeight f m
      → Weighs f (if dropped m then 0 else f m) st (dispatch q env fdp m st)
  unfolding dispatch dropped
  dispatch-Weighs fdp m st weighs =
      dropped-Weighs f (f m) st (m.message_head.message_type == mt_link_pk) _ _ _ _
        (λ links. receive_link-Weighs fdp m st weighs)
        (λ no_link.
          dropped-Weighs f (f m) st (m.message_head.message_type == mt_beat_pk) false _ _ _
            (λ beats. release_with-Weighs f (pos 0) m st)
            (λ no_beat.
              dropped-Weighs f (f m) st (m.message_head.message_type == mt_apply_pk) false _ _ _
                (λ applies. receive_apply-Weighs m st weighs)
                (λ no_call.
                  dropped-Weighs f (f m) st (m.message_head.message_type == mt_obser_pk) _ false _ _
                    (λ observes. receive_observer-Weighs fdp m st weighs)
                    (λ other. release_with-Weighs f (pos 0) m st))))
