-- ===== src/Core/Receive/Balance.antt =====
-- The cases of analyseReceiveData that answer or hand on a message, against the count of objects.
use y_rpc.Common.{
  ℕ, ◌≡◌, refl, Bool, List, [], ◌∷◌, ◌==◌, Bool-cases, inl, inr, ℤ, pos, negsuc, Run, done,
  if◌then◌else◌, arith,
}
use y_rpc.Container.Order.{uint_key, string_key}
use y_rpc.Message
use y_rpc.Message.{
  Message, UserData, null, block, freed, new_message, malloc_body_data, release_body_data,
  update_body_size, serialize_message, copy_user_data,
}
use y_rpc.Message.{analyse_message}
use y_rpc.StringHash
use y_rpc.Observer
use y_rpc.Observer.{ObserverHash}
use y_rpc.Core.{SendList, Core, Env, made, note}
use y_rpc.Core.Queue.{release_rpc_message}
use y_rpc.Core.Reply.{delete_message, release_with}
use y_rpc.Core.Link.{response_link, answer_link, settle_link}
use y_rpc.Body.{read_bytes}
use y_rpc.Core.Receive.{observer_registered, receive_link, receive_apply}
use y_rpc.Core.Receive.Ledger.{
  made_count, ended_count, IsLive, Ends, release_with-Ends, wakeup_one_thread-Ends,
  insert_sender_node-Ends, bind-Ends, made-Ends, dropped-Ends, add_work-Ends,
  response_error_code_ack-Ends, if-Ends, if-Ends-lost,
}

module _ {L : Type 0} where
  pub receive_apply-Ends :
      (q : SendList L) (env : Env) (m : Message) (st : Core L)
      → IsLive m
      → Ends 1 0 st (receive_apply q env m st)
  unfolding receive_apply Message.set_handler
  receive_apply-Ends q env m st live =
      let func_handler = StringHash.find m.body_head.function st.service_func_hash in
      if-Ends st m.message_head.response _ _ (wakeup_one_thread-Ends m st live) (
        if-Ends st (func_handler == 0) _ _
          (bind-Ends st _ _ (response_error_code_ack-Ends q env m _ st)
            (λ c st'. release_with-Ends (negsuc 0) m st' live))
          (add_work-Ends env (Message.set_handler func_handler m) st live))

  pub trace-settle_link :
      (fdp : ℕ) (peer : List ℕ) (st : Core L) → (settle_link fdp peer st).1.trace ≡ st.trace
  unfolding settle_link
  trace-settle_link fdp peer st = ground arith

  pub answer_link-Ends :
      (fdp : ℕ) (m response : Message) (st : Core L)
      → response.user_data ≡ block (1 ∷ [])
      → response.user_data_len ≡ 1
      → Ends 1 0 st (answer_link fdp m (pos 0, response) st)
  unfolding answer_link serialize_message copy_user_data read_bytes update_body_size made_count
      ended_count release_with release_rpc_message release_body_data
  answer_link-Ends fdp m response st held measured =
      let e = trace-settle_link fdp m.body_head.sender st in
      rw (held, measured)
        (record { code = pos 0; state = _; returns = refl; balance = rw e (omega arith) })

  pub response_link-Ends :
      (env : Env) (fdp : ℕ) (m : Message) (st : Core L) → Ends 0 0 st (response_link env fdp m st)
  unfolding response_link answer_link malloc_body_data delete_message read_bytes made_count
      ended_count
  response_link-Ends env fdp m st = elim (Bool-cases env.malloc_body) [
    | inl ok ↦ rw ok (made-Ends st _ (answer_link-Ends fdp m _ (note made st) refl refl))
    | inr failed ↦
        rw failed (record { code = negsuc 0; state = _; returns = refl; balance = omega arith })
  ]

  -- A request is not released.
  pub receive_link-Ends :
      (env : Env) (fdp : ℕ) (m : Message) (st : Core L)
      → IsLive m
      → Ends 1 (if m.message_head.response then 0 else 1) st (receive_link env fdp m st)
  unfolding receive_link Message.set_handler
  receive_link-Ends env fdp m st live =
      if-Ends-lost st m.message_head.response _ _
        (wakeup_one_thread-Ends (Message.set_handler fdp m) st live)
        (dropped-Ends st _ (response_link-Ends env fdp m st))

  -- The table of observers does not count.
  pub tabled-Ends :
      {own lost : ℕ} (st : Core L) (table : ObserverHash) (r : Run (ℤ × Core L))
      → Ends own lost (record st { observer_connect_hash = table }) r
      → Ends own lost st r
  tabled-Ends st table r e = record {
    code = e.code;
    state = e.state;
    returns = e.returns;
    balance = e.balance;
  }

  pub done-Ends : (c : ℤ) (st : Core L) → Ends 0 0 st (done (c, st))
  done-Ends c st = record { code = c; state = st; returns = refl; balance = refl }

  pub observer_registered-Ends :
      (q : SendList L) (env : Env) (fdp : ℕ) (m : Message) (flag : Bool) (st : Core L)
      → Ends 1 0 st (observer_registered q env fdp m flag st)
  unfolding observer_registered malloc_body_data update_body_size
  observer_registered-Ends q env fdp m flag st =
      let key = m.body_head.module_name in
      let table =
        (if flag
          then (Observer.insert_fd key fdp st.observer_connect_hash).1
          else Observer.remove_fd key fdp st.observer_connect_hash) in
      tabled-Ends st table _
        (insert_sender_node-Ends q env _ (record st { observer_connect_hash = table }) (λ e. cc))
