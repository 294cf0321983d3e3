-- ===== src/Core/Link.antt =====
-- rpc_core.cpp: responseLink and requestLink, by which two processes agree on the connection that
-- they use. requestLink waits for the answer in its middle, so it is two steps here: up to
-- `proxy_impl.wait`, and from the result of the wait on. Other steps may come between them.
pub mod Answer
pub mod Outcome
use y_rpc.Common.{
  ℕ, zero, suc, Bool, true, false, not, ◌||◌, List, [], ◌∷◌, length, ◌==◌, Option, none, some, ℤ,
  pos, negsuc, is_zero, Run, done, fault, ◌>>=◌, if◌then◌else◌,
}
use y_rpc.Head.{MessageHead, TimeVal}
use y_rpc.Body.{BodyHead}
use y_rpc.Container.Order.{uint_key, string_lt}
use y_rpc.Message
use y_rpc.Message.{
  Message, UserData, null, block, freed, new_message, malloc_body_data, update_body_size,
  serialize_message,
}
use y_rpc.Hash
use y_rpc.StringHash
use y_rpc.Core.{SendList, Core, Env, Effect, made, released, sent, note, rpcsuccess}
use y_rpc.Core.Queue.{get_frame_id, new_proxy, release_rpc_message}
use y_rpc.Core.Reply.{delete_message, release_with}

-- The link response: its body is the byte `deal_connect`, which is 1 at that point.
unfoldable pub link_response : {Head : Type 0} → Message → Core Head → Message
link_response request st = Message.set_recver request.body_head.sender (
    Message.set_sender st.process_name (
      Message.init_link_response_message request.message_head.timevl request.message_head.message_id
        rpcsuccess new_message))

-- Under the link mutex: the connection that is answered on, and the table of connections
unfoldable pub settle_link : {Head : Type 0} → ℕ → List ℕ → Core Head → ℕ × Core Head
settle_link fdp peer st =
    let table = st.process_connect_hash in
    let exsit_fd = StringHash.find peer table in
    if exsit_fd == 0
    then (fdp, record st { process_connect_hash = (StringHash.insert peer fdp table).1 })
    else (if string_lt st.process_name peer then (exsit_fd, st) else (
      fdp,
      record st {
        process_connect_hash = (StringHash.insert peer fdp (StringHash.remove peer table)).1;
      },
    ))

-- The rest of responseLink, behind mallocBodyData. The message is serialised before the decision.
unfoldable pub answer_link :
    {Head : Type 0} → ℕ → Message → ℤ × Message → Core Head → Run (ℤ × Core Head)
unfolding settle_link
answer_link fdp request (pos zero, response) st = do
  (_, link_data) ← serialize_message true (update_body_size response)
  let settled = settle_link fdp request.body_head.sender st
  release_with (pos 0) (update_body_size response)
      (note (sent settled.0 (elim link_data [ none ↦ [] | some bytes ↦ bytes ])) settled.1)
answer_link fdp request (result, response) st = done (negsuc 0, delete_message response st)

unfoldable pub response_link : {Head : Type 0} → Env → ℕ → Message → Core Head → Run (ℤ × Core Head)
unfolding answer_link link_response
response_link env fdp request st = do
  response ← malloc_body_data env.malloc_body (1 ∷ []) 1 (link_response request st)
  answer_link fdp request response (note made st)

-- Where requestLink stands after its first step: it returned, or it waits with this frame ID and
-- this request.
pub data LinkWait : Type 0 where
  ended : ℤ → LinkWait
  waits : ℕ → Message → LinkWait

unfoldable pub link_request : {Head : Type 0} → TimeVal → ℕ → List ℕ → Core Head → Message
link_request comm_tv frame peer st = Message.set_recver peer (
    Message.set_sender st.process_name
      (Message.init_link_request_message comm_tv frame rpcsuccess new_message))

-- The second half of the first step: the table is claimed for the new connection, or another one
-- stands there already.
unfoldable pub claim_link :
    {Head : Type 0} → ℕ → ℕ → ℕ → List ℕ → Message → List ℕ → Core Head → Run (LinkWait × Core Head)
claim_link proxy fdp frame peer request link_data st =
    let table = st.process_connect_hash in
    if StringHash.find peer table == 0
    then done (
      waits frame request,
      note (sent fdp link_data) (record st {
        process_connect_hash = (StringHash.insert peer fdp table).1;
        proxy_hash = (Hash.insert frame proxy st.proxy_hash).1;
      }),
    )
    else (release_rpc_message (some request) st >>= λ st'. done (ended (pos 1), st'))

-- requestLink up to the wait, on the connection `fdp`, for a message to `peer`, with the RPCProxy
-- at the address `proxy`; `init` tells whether `proxy_impl.init` succeeded
unfoldable pub request_link_begin :
    {Head : Type 0} → TimeVal → Bool → ℕ → ℕ → List ℕ → Core Head → Run (LinkWait × Core Head)
unfolding claim_link link_request
request_link_begin comm_tv false proxy fdp peer st = done (ended (negsuc 0), st)
request_link_begin comm_tv true proxy fdp peer st = do
  let numbered = get_frame_id (note made (new_proxy proxy st))
  (_, filled) ← malloc_body_data true [] 0 (link_request comm_tv numbered.0 peer st)
  let request = update_body_size filled
  (_, link_data) ← serialize_message true request
  claim_link proxy fdp numbered.0 peer request (elim link_data [ none ↦ [] | some bytes ↦ bytes ])
      numbered.1

-- `*(unsigned char *)data`
unfoldable pub first_byte : UserData → Run ℕ
first_byte (block (c ∷ cs)) = done c
first_byte other = fault

-- `deal_connect` of the answer decides: at 0 the peer's connection is taken instead of this one.
unfoldable pub conclude_link : {Head : Type 0} → List ℕ → Message → Core Head → Run (ℤ × Core Head)
unfolding first_byte
conclude_link peer response st = do
  deal_connect ← first_byte response.user_data
  if deal_connect == 0
      then done (
        pos 1,
        record st {
          process_connect_hash =
              (StringHash.insert peer response.handler
                (StringHash.remove peer st.process_connect_hash)).1;
        },
      )
      else done (pos 0, st)

-- Under the link mutex, with the result of the wait and the response if there is one
unfoldable pub decide_link :
    {Head : Type 0} → ℕ → List ℕ → ℤ → Option Message → Core Head → Run (ℤ × Core Head)
decide_link fdp peer result response st =
    if StringHash.find peer st.process_connect_hash == fdp
    then (elim response [
      | some m ↦
          if is_zero result
          then conclude_link peer m st
          else done (
            result,
            record st { process_connect_hash = StringHash.remove peer st.process_connect_hash },
          )
      | none ↦ done (
        result,
        record st { process_connect_hash = StringHash.remove peer st.process_connect_hash },
      )
    ])
    else done (pos 1, st)

-- requestLink from the result of the wait on
unfoldable pub request_link_end :
    {Head : Type 0} → ℕ → ℕ → List ℕ → ℕ → Message → ℤ → Core Head → Run (ℤ × Core Head)
unfolding decide_link
request_link_end proxy fdp peer frame request result st = do
  let response = st.responses proxy
  st₁ ←
      release_rpc_message (some request)
        (record st { proxy_hash = Hash.remove frame st.proxy_hash })
  (result', st₂) ← decide_link fdp peer result response st₁
  st₃ ← release_rpc_message response st₂
  done (result', st₃)
