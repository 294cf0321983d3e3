-- ===== src/Core/Queue/Laws.antt =====
-- The order of the send list, the numbers of the requests, and whom a response reaches.
use y_rpc.Common.{
  ℕ, zero, suc, ◌+◌, ◌%◌, ◌^◌, ◌<◌, ◌≡◌, ◌≢◌, refl, ◌∙◌, ap, true, ◌==◌, none, some, pos, negsuc,
  if◌then◌else◌, arith,
}
use y_rpc.Container.{lookup, IsSorted}
use y_rpc.Container.Order.{uint_key}
use y_rpc.Message.{Message}
use y_rpc.Hash
use y_rpc.Hash.Laws.{insert-Writes, find-view}
use y_rpc.Core.{SendList, Core, Env}
use y_rpc.Core.Queue.{get_frame_id, insert_sender_node, take_sender_node, wakeup_one_thread}

module _ {Head : Type 0} where
  take_sender_node-inserted :
      (q : SendList Head) (m : Message) (h : Head) (st : Core Head)
      → st.send_head ≡ q.list_insert_head m h
      → ((take_sender_node q st).0 ≡ some m) × ((take_sender_node q st).1.send_head ≡ h)
  unfolding take_sender_node
  take_sender_node-inserted q m h st e =
      let first : q.list_first st.send_head ≡ some m =
        ap q.list_first e ∙ q.first-insert_head m h in
      rw (first, take_sender_node) (refl, ap q.list_remove_first e ∙ q.remove_first-insert_head m h)

  send_head-insert_sender_node :
      (q : SendList Head) (env : Env) (m : Message) (st : Core Head)
      → env.malloc_node ≡ true
      → (insert_sender_node q env m st).1.send_head ≡ q.list_insert_head m st.send_head
  unfolding insert_sender_node
  send_head-insert_sender_node q env m st ok = rw ok

  pub take-insert_sender_node :
      (q : SendList Head) (env : Env) (m : Message) (st : Core Head)
      → env.malloc_node ≡ true
      → (let taken = take_sender_node q (insert_sender_node q env m st).1 in
          (taken.0 ≡ some m) × (taken.1.send_head ≡ st.send_head))
  take-insert_sender_node q env m st ok =
      take_sender_node-inserted q m st.send_head _ (send_head-insert_sender_node q env m st ok)

  -- The state after `k` requests were numbered.
  unfoldable pub numbered : ℕ → Core Head → Core Head
  unfolding get_frame_id
  numbered zero st = st
  numbered (suc k) st = (get_frame_id (numbered k st)).1

  frame_id-numbered :
      (k : ℕ) (st : Core Head)
      → st.frame_id < 2 ^ 32
      → (numbered k st).frame_id ≡ (st.frame_id + k) % 2 ^ 32
  unfolding numbered get_frame_id
  frame_id-numbered zero st h = omega arith
  frame_id-numbered (suc k) st h = omega (arith, frame_id-numbered k st h)

  -- From an ID below 2 ^ 32 on, two requests have different frame IDs if fewer than 2 ^ 32 were
  -- numbered from the one to the other.
  pub get_frame_id-numbered :
      (k : ℕ) (st : Core Head)
      → st.frame_id < 2 ^ 32
      → 0 < k
      → k < 2 ^ 32
      → (get_frame_id (numbered k st)).0 ≢ (get_frame_id st).0
  unfolding get_frame_id
  get_frame_id-numbered k st h more less = λ e. omega (arith, frame_id-numbered k st h)

  -- The request `frame` waits at the proxy `proxy`, an address that is not NULL.
  unfoldable pub waiting_at : ℕ → ℕ → Core Head → Core Head
  waiting_at frame proxy st = record st { proxy_hash = (Hash.insert frame proxy st.proxy_hash).1 }

  -- When a request whose ID was free in the ordered table waits at a proxy that is not NULL, a
  -- response with this ID goes to that proxy; a response with another ID goes to the proxy that it
  -- went to without the request, or is refused with -1 as it was. The response of every other proxy
  -- stays as it is.
  pub wakeup_one_thread_lem :
      (frame proxy : ℕ) (m : Message) (st : Core Head)
      → IsSorted st.proxy_hash
      → lookup frame st.proxy_hash ≡ none
      → proxy ≢ 0
      → (let target =
            (if m.message_head.message_id == frame
              then proxy
              else Hash.find m.message_head.message_id st.proxy_hash) in
          let woken = wakeup_one_thread m (waiting_at frame proxy st) in
          (woken.0 ≡ (if target == 0 then negsuc 0 else pos 0))
          × ((a : ℕ)
              → woken.1.responses a ≡ (
                  if target == 0
                  then st.responses a
                  else (if a == target then some m else st.responses a))))
  unfolding wakeup_one_thread waiting_at
  wakeup_one_thread_lem frame proxy m st sorted free there = ground (
    arith,
    find-view m.message_head.message_id frame proxy st.proxy_hash
        (Hash.insert frame proxy st.proxy_hash).1
        (insert-Writes frame proxy st.proxy_hash sorted free),
  )
