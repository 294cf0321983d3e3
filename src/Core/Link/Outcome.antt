-- ===== src/Core/Link/Outcome.antt =====
-- How requestLink ends, by what was answered.
use y_rpc.Common.{
  ℕ, ◌≡◌, inl, inr, List, ◌∷◌, ◌==◌, ==_refl, Bool-cases, none, some, ℤ, pos, done, if◌then◌else◌,
  arith,
}
use y_rpc.Container.{IsSorted}
use y_rpc.Container.Order.{string_key, same_key}
use y_rpc.Container.Laws.{same_key→eq}
use y_rpc.Hash.Laws.{Writes, remove-Writes, find-replace}
use y_rpc.StringHash
use y_rpc.Message.{Message, block}
use y_rpc.Core.{Core}
use y_rpc.Core.Link.{conclude_link, decide_link, first_byte}

module _ {L : Type 0} where
  -- When the wait of requestLink ends with an answer, and its connection still stands in the
  -- ordered table, an answer whose first byte is not 0 makes the result 0 and leaves the table as
  -- it is; with the byte 0 the result is 1 and the connection that the answer came on stands for
  -- the peer. Other peers keep their connections.
  pub decide_link-answered :
      (fdp : ℕ) (peer : List ℕ) (m : Message) (c : ℕ) (cs : List ℕ) (st : Core L)
      → IsSorted st.process_connect_hash
      → StringHash.find peer st.process_connect_hash ≡ fdp
      → m.user_data ≡ block (c ∷ cs)
      → (st' : Core L) × (decide_link fdp peer (pos 0) (some m) st
          ≡ done ((if c == 0 then pos 1 else pos 0), st'))
        × ((p : List ℕ)
            → StringHash.find p st'.process_connect_hash ≡ (
                if same_key p peer
                then (if c == 0 then m.handler else fdp)
                else StringHash.find p st.process_connect_hash))
  unfolding decide_link conclude_link first_byte StringHash.find StringHash.insert StringHash.remove
  decide_link-answered fdp peer m c cs st sorted stands e = elim (Bool-cases (c == 0)) [
    | inl zero_byte ↦ (
      record st {
        process_connect_hash =
            (StringHash.insert peer m.handler (StringHash.remove peer st.process_connect_hash)).1;
      },
      ground (arith, ==_refl fdp),
      λ p. ground (arith, find-replace p peer m.handler st.process_connect_hash sorted),
    )
    | inr other ↦ (st, ground (arith, ==_refl fdp), λ p. ground (arith, same_key→eq p peer))
  ]

  -- When the wait ends without an answer, and the connection still stands in the ordered table, its
  -- result is returned and the table has no connection to the peer; other peers keep theirs.
  pub decide_link-unanswered :
      (fdp : ℕ) (peer : List ℕ) (result : ℤ) (st : Core L)
      → IsSorted st.process_connect_hash
      → StringHash.find peer st.process_connect_hash ≡ fdp
      → (st' : Core L) × (decide_link fdp peer result none st ≡ done (result, st'))
        × Writes st.process_connect_hash peer none st'.process_connect_hash
  unfolding decide_link StringHash.remove StringHash.find
  decide_link-unanswered fdp peer result st sorted stands = (
    record st { process_connect_hash = StringHash.remove peer st.process_connect_hash },
    ground (arith, ==_refl fdp),
    remove-Writes peer st.process_connect_hash sorted,
  )
