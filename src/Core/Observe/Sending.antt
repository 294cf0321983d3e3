-- ===== src/Core/Observe/Sending.antt =====
-- From invokeObserver to what the core thread sends.
use y_rpc.Common.{
  ℕ, ◌^◌, ◌<◌, ◌≡◌, refl, sym, ◌∙◌, ap, true, false, List, [], ◌∷◌, ◌++◌, append_assoc, length,
  some, pos, done, string_eq, arith,
}
use mathlib.Core.List.{map, reverse, reverse-cons}
use y_rpc.Head as MsgHead
use y_rpc.Head.{IsMessageHead, mt_obser_pk}
use y_rpc.Body
use y_rpc.Body.RoundTrip.{IsName}
use y_rpc.Message
use y_rpc.Message.{
  Message, new_message, update_body_size, serialize_message, analyse_message, release_body_data,
}
use y_rpc.Message.Wire.{IsMessage, wire, serialize_message-wire, malloc_body_data-holding}
use y_rpc.StringHash
use y_rpc.Observer
use y_rpc.Observer.{ObserverHash}
use y_rpc.Core.{
  SendList, Core, Env, Effect, made, queued, sent, released, note, observerappendstring,
}
use y_rpc.Core.Queue.{get_frame_id, insert_sender_node, take_sender_node}
use y_rpc.Core.Reply.{handed_on}
use y_rpc.Core.Observe.{invoke_request, make_invocation, invoke_made, invoke_observer}
use y_rpc.Core.Observe.Owners.{numbered, invocation}
use y_rpc.Core.Receive.Ledger.{IsLive}
use y_rpc.Core.Call.Outcome.{holding-IsLive, release_rpc_message-IsLive}
use y_rpc.Core.Sender.{
  idle, send_to_observers, send_invocation, sender_take, send_taken, free_memory, is_invocation,
}

find-empty_of :
    (key : List ℕ) (m : ObserverHash) {fd : ℕ} {fds : List ℕ}
    → Observer.find key m ≡ some (fd ∷ fds)
    → Observer.empty_of key m ≡ false
unfolding Observer.find Observer.empty_of
find-empty_of key m h = rw (h, Observer.empty_of) refl

module _ {L : Type 0} where
  -- What must fit for an invocation to be sent.
  pub record Invokable (observed bytes : List ℕ) (st : Core L) : Type 0 where
    pub running : st.run_state ≡ true
    pub frame_fits : st.frame_id < 2 ^ 32
    pub process_fits : IsName st.process_name
    pub object_fits : IsName observed
    pub data_fits : length bytes < 2 ^ 32

  pub invocation-IsMessage :
      (observed bytes : List ℕ) (st : Core L)
      → Invokable observed bytes st
      → IsMessage (invocation observed bytes st) bytes
  unfolding invocation invoke_request update_body_size Message.set_body_head
      Message.init_observer_invoke_message MsgHead.init_observer_invoke_msg MsgHead.set_body_size
      new_message Body.set_sender Body.set_recver Body.set_module Body.set_function Body.clear
      MsgHead.init
  invocation-IsMessage observed bytes st h = record {
    head_fits = omega (arith, h.frame_fits);
    names_fit = record {
      sender_fits = h.process_fits;
      recver_fits = h.object_fits;
      module_fits = h.object_fits;
      function_fits = omega arith;
    };
    held = refl;
    measured = refl;
  }

  send_to_observers-trace :
      (fds packet : List ℕ) (st : Core L)
      → send_to_observers fds packet st
        ≡ record st { trace = reverse (map (λ fd. sent fd packet) fds) ++ st.trace }
  unfolding send_to_observers
  send_to_observers-trace [] packet st = refl
  send_to_observers-trace (fd ∷ fds) packet st =
      let rest = map (λ (fd' : ℕ). sent fd' packet) fds in
      let order : reverse rest ++ (sent fd packet ∷ st.trace)
          ≡ reverse (sent fd packet ∷ rest) ++ st.trace =
        sym (
          ap (λ es. es ++ st.trace) (reverse-cons (sent fd packet) rest)
          ∙ append_assoc (reverse rest) (sent fd packet ∷ []) st.trace) in
      send_to_observers-trace fds packet (note (sent fd packet) st)
      ∙ ap (λ (t : List Effect). record st { trace = t }) order

  -- The state behind invokeObserver
  pub queued_invocation : SendList L → List ℕ → List ℕ → Core L → Core L
  queued_invocation q observed bytes st =
      let m = invocation observed bytes st in
      note (queued m) (record (numbered st) { send_head = q.list_insert_head m st.send_head })

  pub invoke_observer-queues :
      (q : SendList L) (env copy : Env) (observed bytes fds : List ℕ) (fd : ℕ) (st : Core L)
      → st.run_state ≡ true
      → env.malloc_body ≡ true
      → env.malloc_node ≡ true
      → Observer.find observed st.observer_connect_hash ≡ some (fd ∷ fds)
      → StringHash.find (observed ++ observerappendstring) st.observer_func_hash ≡ 0
      → invoke_observer q env copy observed bytes (length bytes) st
        ≡ done (pos 0, queued_invocation q observed bytes st)
  unfolding invoke_observer make_invocation invoke_made handed_on insert_sender_node invocation
      numbered get_frame_id queued_invocation
  invoke_observer-queues q env copy observed bytes fds fd st running body node observes remote =
      rw (observes, invoke_observer)
        (simp (
          running,
          body,
          node,
          remote,
          find-empty_of observed st.observer_connect_hash observes,
          malloc_body_data-holding bytes (invoke_request st.frame_id observed st),
        ))

  send_invocation-observers :
      (bytes fds : List ℕ) (fd : ℕ) (m : Message) (st : Core L)
      → IsMessage m bytes
      → Observer.find m.body_head.recver st.observer_connect_hash ≡ some (fd ∷ fds)
      → send_invocation m st ≡ free_memory m (send_to_observers (fd ∷ fds) (wire m bytes) st)
  unfolding send_invocation
  send_invocation-observers bytes fds fd m st fits observes =
      rw (observes, send_invocation) (rw (serialize_message-wire m bytes fits) refl)

  take_sender_node-invocation :
      (q : SendList L) (observed bytes : List ℕ) (st : Core L)
      → take_sender_node q (queued_invocation q observed bytes st) ≡ (
        some (invocation observed bytes st),
        record (queued_invocation q observed bytes st) { send_head = st.send_head },
      )
  unfolding take_sender_node queued_invocation
  take_sender_node-invocation q observed bytes st =
      let m = invocation observed bytes st in
      rw (q.first-insert_head m st.send_head, take_sender_node)
        (rw (q.remove_first-insert_head m st.send_head) refl)

  -- The state behind the core thread's round
  unfoldable pub sent_invocation : SendList L → List ℕ → List ℕ → List ℕ → Core L → Core L
  sent_invocation q observed bytes fds st =
      let m = invocation observed bytes st in
      let packet = wire m bytes in
      record (queued_invocation q observed bytes st) {
        send_head = st.send_head;
        trace =
            released m ∷ (reverse (map (λ fd. sent fd packet) fds) ++ (queued m ∷ made ∷ st.trace));
      }

  sender_take-taken :
      (q : SendList L) (m : Message) (st taken : Core L)
      → st.run_state ≡ true
      → take_sender_node q st ≡ (some m, taken)
      → is_invocation m ≡ true
      → sender_take q st ≡ send_invocation m taken
  unfolding sender_take send_taken
  sender_take-taken q m st taken running e invokes = simp (running, e, invokes)

  invocation-is_invocation :
      (observed bytes : List ℕ) (st : Core L) → is_invocation (invocation observed bytes st) ≡ true
  unfolding invocation update_body_size Message.set_body_head invoke_request
      Message.init_observer_invoke_message MsgHead.init_observer_invoke_msg MsgHead.set_body_size
      Body.set_recver Body.set_sender Body.set_module Body.set_function string_eq
  invocation-is_invocation observed bytes st = refl

  recver-invocation :
      (observed bytes : List ℕ) (st : Core L)
      → (invocation observed bytes st).body_head.recver ≡ observed
  unfolding invocation update_body_size Message.set_body_head invoke_request Body.set_recver
      Body.set_sender Body.set_module Body.set_function
  recver-invocation observed bytes st = refl

  free_memory-IsLive :
      (m : Message) (st : Core L) → IsLive m → free_memory m st ≡ done (idle, note (released m) st)
  unfolding free_memory
  free_memory-IsLive m st live = rw (release_rpc_message-IsLive m st live) refl

  pub sender_take-invocation :
      (q : SendList L) (observed bytes fds : List ℕ) (fd : ℕ) (st : Core L)
      → Invokable observed bytes st
      → Observer.find observed st.observer_connect_hash ≡ some (fd ∷ fds)
      → sender_take q (queued_invocation q observed bytes st)
        ≡ done (idle, sent_invocation q observed bytes (fd ∷ fds) st)
  unfolding sent_invocation numbered get_frame_id queued_invocation
  sender_take-invocation q observed bytes fds fd st h observes =
      let m = invocation observed bytes st in
      let taken : Core L = record (queued_invocation q observed bytes st) {
        send_head = st.send_head;
      } in
      let fits = invocation-IsMessage observed bytes st h in
      let key = recver-invocation observed bytes st in
      sender_take-taken q m _ taken h.running (take_sender_node-invocation q observed bytes st)
        (invocation-is_invocation observed bytes st)
      ∙ send_invocation-observers bytes fds fd m taken fits
          (ap (λ k. Observer.find k st.observer_connect_hash) key ∙ observes)
      ∙ free_memory-IsLive m _ (holding-IsLive m bytes fits.held)
      ∙ ap (λ (sent' : Core L). done (idle, note (released m) sent'))
          (send_to_observers-trace (fd ∷ fds) (wire m bytes) taken)
