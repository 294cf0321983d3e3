-- ===== src/Core/Call/Outcome.antt =====
-- What proxyCall returns when its wait is over.
use y_rpc.Common.{
  ℕ, zero, suc, ◌≤◌, ◌≡◌, refl, ap, List, [], ◌∷◌, length, take, ltb, ◌==◌, Bool-cases, inl, inr,
  Option, none, some, pos, negsuc, done, if◌then◌else◌, arith,
}
use y_rpc.Container.{IsSorted}
use y_rpc.Container.Order.{uint_key}
use y_rpc.Body.{read_bytes}
use y_rpc.Message.{Message}
use y_rpc.Message.Wire.{holding}
use y_rpc.Hash
use y_rpc.Hash.Laws.{Writes, remove-Writes}
use y_rpc.Core.{Core, note, released}
use y_rpc.Core.Queue.{release_rpc_message}
use y_rpc.Core.Receive.Ledger.{IsLive, release_body_data-IsLive}
use y_rpc.Core.Call.{copy_response, call_result, proxy_call_end}

read_bytes-take :
    (n : ℕ) (bytes : List ℕ) → n ≤ length bytes → read_bytes n bytes ≡ done (take n bytes)
unfolding read_bytes
read_bytes-take zero [] h = refl
read_bytes-take zero (c ∷ cs) h = refl
read_bytes-take (suc n) [] h = absurd (omega arith)
read_bytes-take (suc n) (c ∷ cs) h = rw (read_bytes-take n cs (omega arith))

-- What is copied of an answer to a buffer of `capacity` bytes, and `*rlen` afterwards
copied_part : ℕ → List ℕ → Option (List ℕ) × ℕ
copied_part capacity [] = (none, capacity)
copied_part capacity (c ∷ cs) = (some (take capacity (c ∷ cs)), length (take capacity (c ∷ cs)))

-- What a caller with room for `capacity` bytes gets of an answer, and `*rlen` afterwards: nothing
-- without room, else the length of what it gets, but the capacity as it was for an answer without
-- data
pub received_part : ℕ → List ℕ → Option (List ℕ) × ℕ
received_part capacity bytes =
    if capacity == 0 then (none, capacity) else copied_part capacity bytes

length-take : (n : ℕ) (bytes : List ℕ) → n ≤ length bytes → length (take n bytes) ≡ n
length-take zero bytes h = refl
length-take (suc n) [] h = absurd (omega arith)
length-take (suc n) (c ∷ cs) h = ap suc (length-take n cs (omega arith))

take_all : (n : ℕ) (bytes : List ℕ) → length bytes ≤ n → take (length bytes) bytes ≡ take n bytes
take_all zero [] h = refl
take_all (suc n) [] h = refl
take_all zero (c ∷ cs) h = absurd (omega arith)
take_all (suc n) (c ∷ cs) h = rw (take_all n cs (omega arith))

copy_response-holding :
    (bytes : List ℕ) (capacity : ℕ)
    → copy_response (holding bytes) (length bytes) capacity ≡ done (copied_part capacity bytes)
unfolding copy_response copied_part
copy_response-holding [] capacity = refl
copy_response-holding (c ∷ cs) capacity = elim (Bool-cases (ltb capacity (length (c ∷ cs)))) [
  | inl short ↦ ground (arith, read_bytes-take capacity (c ∷ cs), length-take capacity (c ∷ cs))
  | inr room ↦ ground (
    arith,
    read_bytes-take (length (c ∷ cs)) (c ∷ cs),
    take_all capacity (c ∷ cs),
    length-take (length (c ∷ cs)) (c ∷ cs),
  )
]

pub holding-IsLive : (m : Message) (bytes : List ℕ) → m.user_data ≡ holding bytes → IsLive m
holding-IsLive m [] e = λ p. cc
holding-IsLive m (c ∷ cs) e = λ p. cc

call_result-holding :
    (m : Message) (bytes : List ℕ) (capacity : ℕ)
    → m.user_data ≡ holding bytes
    → m.user_data_len ≡ length bytes
    → call_result (pos 0) (some m) capacity
      ≡ done (
          if m.message_head.status_code == 0
          then (pos 0, received_part capacity bytes)
          else (negsuc 0, (none, capacity)))
unfolding call_result received_part
call_result-holding m bytes capacity held measured =
    elim (Bool-cases (m.message_head.status_code == 0)) [
      | inl success ↦ elim (Bool-cases (capacity == 0)) [
        | inl no_room ↦ simp (success, no_room)
        | inr room ↦ simp (success, room, held, measured, copy_response-holding bytes capacity)
      ]
      | inr failure ↦ simp failure
    ]

module _ {L : Type 0} where
  pub release_rpc_message-IsLive :
      (m : Message) (st : Core L)
      → IsLive m
      → release_rpc_message (some m) st ≡ done (note (released m) st)
  unfolding release_rpc_message
  release_rpc_message-IsLive m st live = let (gone, e) = release_body_data-IsLive m live in rw e

  -- A call whose proxy got an answer, with data that it holds, before the wait ended returns 0 and
  -- the part of the answered data that the caller has room for, with `*rlen` as the length of that
  -- part, or -1 and nothing if the status is not 0. For an answer without data it returns 0, copies
  -- nothing, and leaves `*rlen` at the capacity of the buffer; so it does for -1. Its ID is free
  -- afterwards in the ordered table, the other calls wait as they did, and the answer is released.
  pub proxy_call_end-answered :
      (proxy frame capacity : ℕ) (m : Message) (bytes : List ℕ) (st : Core L)
      → IsSorted st.proxy_hash
      → st.responses proxy ≡ some m
      → m.user_data ≡ holding bytes
      → m.user_data_len ≡ length bytes
      → (st' : Core L) × (proxy_call_end proxy frame (pos 0) capacity st
          ≡ done (
            (if m.message_head.status_code == 0
                then (pos 0, received_part capacity bytes)
                else (negsuc 0, (none, capacity))),
            st',
          ))
        × Writes st.proxy_hash frame none st'.proxy_hash
        × (st'.trace ≡ released m ∷ st.trace)
  unfolding proxy_call_end
  proxy_call_end-answered proxy frame capacity m bytes st sorted came held measured =
      let unregistered : Core L = record st { proxy_hash = Hash.remove frame st.proxy_hash } in
      (
        note (released m) unregistered,
        simp (
          came,
          call_result-holding m bytes capacity held measured,
          release_rpc_message-IsLive m unregistered (holding-IsLive m bytes held),
        ),
        remove-Writes frame st.proxy_hash sorted,
        refl,
      )
