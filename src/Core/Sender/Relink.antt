-- ===== src/Core/Sender/Relink.antt =====
-- What RPCCoreThread does when the other process accepts the connection and never answers the link
-- request.
use y_rpc.Common.{
  ℕ, ◌<◌, ◌≡◌, refl, true, false, List, ◌==◌, inl, inr, none, pos, negsuc, done, arith,
}
use y_rpc.Container.{lookup, IsSorted}
use y_rpc.Container.Order.{string_key, uint_key}
use y_rpc.Container.Laws.{same_key_refl}
use y_rpc.Head.{TimeVal}
use y_rpc.Message
use y_rpc.Message.{
  Message, malloc_body_data, serialize_message, copy_user_data, update_body_size, new_message,
}
use y_rpc.Hash
use y_rpc.Hash.Laws.{Writes, remove_value_lem}
use y_rpc.StringHash
use y_rpc.Core.{Core, released, closed, note}
use y_rpc.Core.Queue.{release_rpc_message, new_proxy, get_frame_id}
use y_rpc.Core.Receive.Ledger.{IsLive}
use y_rpc.Core.Call.Outcome.{release_rpc_message-IsLive}
use y_rpc.Core.Link.{link_request, claim_link, request_link_begin, request_link_end}
use y_rpc.Core.Link.Outcome.{decide_link-unanswered}
use y_rpc.Core.Events.{disconnected}
use y_rpc.Core.Sender.{connecting, linking, link_begun, linked, sender_connect, sender_linked}

lookup-remove_value :
    (k : List ℕ) (value : ℕ) (m : StringHash.StringHash)
    → IsSorted m
    → lookup k m ≡ none
    → lookup k (Hash.remove_value value m) ≡ none
lookup-remove_value k value m sorted absent = elim (remove_value_lem value m sorted) [
  | inl (free, same) ↦ rw same absent
  | inr (j, held, least, w) ↦ ground (arith, w.view k)
]

module _ {L : Type 0} where
  -- After a failed handshake the peer has no connection.
  linked-absent :
      (m : Message) (count fd n : ℕ) (st : Core L)
      → IsSorted st.process_connect_hash
      → lookup m.body_head.recver st.process_connect_hash ≡ none
      → (st' : Core L) × (linked m count fd (negsuc n, st) ≡ done (connecting m count, st'))
        × (StringHash.find m.body_head.recver st'.process_connect_hash ≡ 0)
  unfolding linked disconnected StringHash.remove_value StringHash.find Hash.find
  linked-absent m count fd n st sorted absent = (
    note (closed fd) (disconnected fd 1 st),
    refl,
    rw (lookup-remove_value m.body_head.recver fd st.process_connect_hash sorted absent, Hash.find)
        refl,
  )

  request_link_end-times_out :
      (proxy fd : ℕ) (peer : List ℕ) (frame n : ℕ) (request : Message) (st : Core L)
      → IsSorted st.process_connect_hash
      → StringHash.find peer st.process_connect_hash ≡ fd
      → st.responses proxy ≡ none
      → IsLive request
      → (st' : Core L) × (request_link_end proxy fd peer frame request (negsuc n) st
          ≡ done (negsuc n, st'))
        × Writes st.process_connect_hash peer none st'.process_connect_hash
  unfolding request_link_end release_rpc_message Hash.remove
  request_link_end-times_out proxy fd peer frame n request st sorted stands silent live =
      let unregistered : Core L = record st { proxy_hash = Hash.remove frame st.proxy_hash } in
      let released' = note (released request) unregistered in
      let (st', e, w) = decide_link-unanswered fd peer (negsuc n) released' sorted stands in
      (st', simp (silent, release_rpc_message-IsLive request unregistered live, e), w)

  begun_link :
      (comm_tv : TimeVal) (m : Message) (count fd proxy : ℕ) (st : Core L)
      → StringHash.find m.body_head.recver st.process_connect_hash ≡ 0
      → count < 3
      → (st' : Core L) × (frame : ℕ) × (request : Message) × (sender_connect comm_tv
            (pos 0, fd)
            true
            proxy
            m
            count
            st
          ≡ done (linking m count fd proxy frame request, st'))
  unfolding sender_connect request_link_begin claim_link link_begun malloc_body_data
      serialize_message copy_user_data update_body_size link_request new_proxy get_frame_id
      Message.set_recver Message.set_sender
  begun_link comm_tv m count fd proxy st absent room =
      let more : (3 == count) ≡ false = ground arith in rw (absent, more) (_, _, _, refl)

  -- When the wait of the handshake ends without an answer and with a result below 0, while the
  -- connection stands in the ordered table, the request is not released yet and fewer than 3 tries
  -- were counted, the thread is back
  -- at its search for a connection with the same count; and when another connect succeeds, and the
  -- init of its proxy, it is in the same wait again, with the same message and count.
  pub sender_linked-again :
      (comm_tv : TimeVal) (m : Message) (count fd proxy frame n : ℕ) (request : Message)
      (st : Core L) (fd' proxy' : ℕ)
      → IsSorted st.process_connect_hash
      → StringHash.find m.body_head.recver st.process_connect_hash ≡ fd
      → st.responses proxy ≡ none
      → IsLive request
      → count < 3
      → (st' st'' : Core L) × (frame' : ℕ) × (request' : Message) × (sender_linked m count fd proxy
            frame request
            (negsuc n)
            st
          ≡ done (connecting m count, st'))
        × (sender_connect comm_tv (pos 0, fd') true proxy' m count st'
            ≡ done (linking m count fd' proxy' frame' request', st''))
  unfolding sender_linked
  sender_linked-again comm_tv m count fd proxy frame n request st fd' proxy' sorted stands silent
        live room =
      let peer = m.body_head.recver in
      let (st₁, ends, w) =
        request_link_end-times_out proxy fd peer frame n request st sorted stands silent live in
      let absent : lookup peer st₁.process_connect_hash ≡ none =
        rw (w.view peer, same_key_refl peer) refl in
      let (st', repeats, gone) = linked-absent m count fd n st₁ w.sorted absent in
      let (st'', frame', request', waiting) = begun_link comm_tv m count fd' proxy' st' gone room in
      (st', st'', frame', request', rw ends repeats, waiting)
