-- ===== src/Core/Link/Answer.antt =====
-- What responseLink decides and what it tells the other process.
use y_rpc.Common.{
  ℕ, ◌^◌, ◌<◌, ◌≡◌, ◌≢◌, refl, true, List, [], ◌∷◌, length, ◌==◌, Bool-cases, Option-cases, inl,
  inr, some, pos, done, if◌then◌else◌, arith,
}
use y_rpc.Container.{lookup, IsSorted}
use y_rpc.Container.Order.{string_key, string_lt, same_key}
use y_rpc.Head
use y_rpc.Head.{MessageHead, IsMessageHead}
use y_rpc.Body
use y_rpc.Body.{BodyHead}
use y_rpc.Body.RoundTrip.{IsName, size-IsBodyHead}
use y_rpc.Message
use y_rpc.Message.{
  Message, block, release_body_data, update_body_size, new_message, analyse_message,
  serialize_message,
}
use y_rpc.Message.Wire.{
  IsMessage, wire, length-wire, analysed, serialize_message-wire, analyse_message-wire,
  malloc_body_data-holding,
}
use y_rpc.Hash
use y_rpc.Hash.Laws.{insert-Writes, find-view, find-replace}
use y_rpc.Container.Laws.{same_key→eq}
use y_rpc.StringHash
use y_rpc.Core.{Core, Env, made, released, sent, note}
use y_rpc.Core.Queue.{release_rpc_message}
use y_rpc.Core.Reply.{release_with}
use y_rpc.Core.Link.{
  link_response, settle_link, answer_link, response_link, conclude_link, decide_link, first_byte,
}

-- The answer, as it is sent.
pub link_answer : {L : Type 0} → Message → Core L → Message
link_answer request st =
    update_body_size
      (record (link_response request st) { user_data = block (1 ∷ []); user_data_len = 1 })

module _ {L : Type 0} where
  link_answer-IsMessage :
      (request : Message) (st : Core L)
      → request.message_head.message_id < 2 ^ 32
      → IsName request.body_head.sender
      → IsName st.process_name
      → IsMessage (link_answer request st) (1 ∷ [])
  unfolding link_answer link_response update_body_size Message.set_recver Message.set_sender
      Message.init_link_response_message Head.init_link_response_msg Head.set_body_size new_message
      Body.set_sender Body.set_recver Body.clear Head.init
  link_answer-IsMessage request st id_fits sender_fits name_fits = record {
    head_fits = omega arith;
    names_fit = omega arith;
    held = refl;
    measured = refl;
  }

  -- The packet is as short as its names.
  length-link_answer :
      (request : Message) (st : Core L)
      → IsMessage (link_answer request st) (1 ∷ [])
      → length (wire (link_answer request st) (1 ∷ [])) < 2 ^ 64
  length-link_answer request st fits = omega (
    arith,
    length-wire (link_answer request st) (1 ∷ []),
    size-IsBodyHead (link_answer request st).body_head fits.names_fit,
  )

  response_link-runs :
      (env : Env) (fdp : ℕ) (request : Message) (st : Core L)
      → env.malloc_body ≡ true
      → IsMessage (link_answer request st) (1 ∷ [])
      → response_link env fdp request st ≡ (
          let settled = settle_link fdp request.body_head.sender (note made st) in
          done (
            pos 0,
            note
                (released (link_answer request st))
                (note (sent settled.0 (wire (link_answer request st) (1 ∷ []))) settled.1),
          ))
  unfolding response_link answer_link release_with release_rpc_message release_body_data link_answer
      update_body_size StringHash.find
  response_link-runs env fdp request st ok fits = rw (
    ok,
    malloc_body_data-holding (1 ∷ []) (link_response request st),
    serialize_message-wire (link_answer request st) (1 ∷ []) fits,
  )

  -- Under the link mutex the answering process takes one of two connections to the peer, and its
  -- table holds that one afterwards; the other entries stay.
  settle_link-view :
      (fdp : ℕ) (peer : List ℕ) (st : Core L)
      → IsSorted st.process_connect_hash
      → lookup peer st.process_connect_hash ≢ some 0
      → (q : List ℕ)
      → StringHash.find q (settle_link fdp peer st).1.process_connect_hash ≡ (
          if same_key q peer
          then (settle_link fdp peer st).0
          else StringHash.find q st.process_connect_hash)
  unfolding settle_link StringHash.find StringHash.insert StringHash.remove Hash.find
  settle_link-view fdp peer st sorted held q =
      elim (Option-cases (lookup peer st.process_connect_hash)) [
        | inl e ↦ ground (
          arith,
          find-view q peer fdp st.process_connect_hash _
              (insert-Writes peer fdp st.process_connect_hash sorted e),
        )
        | inr (v, e) ↦ elim (Bool-cases (string_lt st.process_name peer)) [
          | inl less ↦ ground (arith, same_key→eq q peer)
          | inr more ↦ ground (arith, find-replace q peer fdp st.process_connect_hash sorted)
        ]
      ]

  conclude_link-block :
      (peer : List ℕ) (m : Message) (st : Core L)
      → m.user_data ≡ block (1 ∷ [])
      → conclude_link peer m st ≡ done (pos 0, st)
  unfolding conclude_link first_byte
  conclude_link-block peer m st e = rw e

  decide_link-block :
      (own : ℕ) (peer : List ℕ) (m : Message) (st : Core L)
      → m.user_data ≡ block (1 ∷ [])
      → decide_link own peer (pos 0) (some m) st
        ≡ done ((if StringHash.find peer st.process_connect_hash == own then pos 0 else pos 1), st)
  unfolding decide_link
  decide_link-block own peer m st e =
      elim (Bool-cases (StringHash.find peer st.process_connect_hash == own)) [
        | inl stands ↦ rw stands (conclude_link-block peer m st e)
        | inr gone ↦ rw gone refl
      ]

  -- A process answers a link request, if malloc succeeds, the names and the ID fit their fields,
  -- and its ordered table does not hold NULL for the peer, with one packet on the connection that
  -- it settled on, and holds that connection for the peer afterwards, the other entries as they
  -- were. But whichever connection that is, a requester whose wait ends with what it reads of the
  -- packet leaves its table as it is: it returns 0 if its own connection still stands there for its
  -- peer, and 1 if another one or none does.
  pub response_link_lem :
      (env : Env) (fdp : ℕ) (request : Message) (st requester : Core L) (own : ℕ) (peer : List ℕ)
      → env.malloc_body ≡ true
      → request.message_head.message_id < 2 ^ 32
      → IsName request.body_head.sender
      → IsName st.process_name
      → IsSorted st.process_connect_hash
      → lookup request.body_head.sender st.process_connect_hash ≢ some 0
      → (settled : ℕ × Core L) × (settled ≡ settle_link fdp request.body_head.sender (note made st))
        × (packet : List ℕ) × (response_link env fdp request st
            ≡ done (
              pos 0,
              note (released (link_answer request st)) (note (sent settled.0 packet) settled.1),
            ))
        × ((q : List ℕ)
            → StringHash.find q settled.1.process_connect_hash ≡ (
                if same_key q request.body_head.sender
                then settled.0
                else StringHash.find q st.process_connect_hash))
        × (response : Message) × (analyse_message true packet (length packet)
            ≡ done (pos 0, response))
        × (decide_link own peer (pos 0) (some response) requester
            ≡ done (
              (if StringHash.find peer requester.process_connect_hash == own then pos 0 else pos 1),
              requester,
            ))
  response_link_lem env fdp request st requester own peer ok id_fits sender_fits name_fits sorted
        held =
      let fits = link_answer-IsMessage request st id_fits sender_fits name_fits in
      (
        settle_link fdp request.body_head.sender (note made st),
        refl,
        wire (link_answer request st) (1 ∷ []),
        response_link-runs env fdp request st ok fits,
        settle_link-view fdp request.body_head.sender (note made st) sorted held,
        analysed (link_answer request st) (1 ∷ []),
        analyse_message-wire (link_answer request st) (1 ∷ []) fits.head_fits fits.names_fit
            (length-link_answer request st fits),
        decide_link-block own peer _ requester (unfold analysed in refl),
      )
