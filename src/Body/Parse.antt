-- ===== src/Body/Parse.antt =====
-- DeserializeBodyHead on any input, well formed or not.
use y_rpc.Common.{
  ℕ, zero, suc, ◌≤◌, ◌<◌, ◌≢◌, List, [], ◌∷◌, length, length-drop-le, bind-ne-out_of_fuel, Run,
  out_of_fuel, arith, inl, inr, Bool-cases,
}
use y_rpc.Body.{
  BodyHead, Tag, parse_round, is_end, tag_of, read_bytes, read_name, skip_name, check_magic_num,
  deserialize_loop, deserialize_body_head,
}

read_bytes-ne-out_of_fuel : (n : ℕ) (ptr : List ℕ) → read_bytes n ptr ≢ out_of_fuel
unfolding read_bytes
read_bytes-ne-out_of_fuel zero ptr = λ e. cc
read_bytes-ne-out_of_fuel (suc n) [] = λ e. cc
read_bytes-ne-out_of_fuel (suc n) (c ∷ ptr) = ground (arith, read_bytes-ne-out_of_fuel n ptr)

read_name-ne-out_of_fuel : (ptr : List ℕ) → read_name ptr ≢ out_of_fuel
unfolding read_name
read_name-ne-out_of_fuel [] = λ e. cc
read_name-ne-out_of_fuel (t ∷ []) = λ e. cc
read_name-ne-out_of_fuel (t ∷ u ∷ []) = λ e. cc
read_name-ne-out_of_fuel (t ∷ u ∷ n ∷ ptr) = read_bytes-ne-out_of_fuel n ptr

skip_name-shorter : (c : ℕ) (ptr : List ℕ) → length (skip_name (c ∷ ptr)) ≤ length ptr
unfolding skip_name
skip_name-shorter c [] = omega arith
skip_name-shorter c (u ∷ []) = omega arith
skip_name-shorter c (u ∷ n ∷ ptr) = omega (arith, length-drop-le n ptr)

parse_round-ne-out_of_fuel :
    (tag : Tag) (c : ℕ) (ptr : List ℕ) (b : BodyHead) (next : List ℕ → BodyHead → Run BodyHead)
    → ((rest : List ℕ) (b' : BodyHead) → length rest ≤ length ptr → next rest b' ≢ out_of_fuel)
    → parse_round tag (c ∷ ptr) b next ≢ out_of_fuel
unfolding parse_round
parse_round-ne-out_of_fuel is_end c ptr b next h = λ e. cc
parse_round-ne-out_of_fuel tag c ptr b next h =
    bind-ne-out_of_fuel (read_name (c ∷ ptr)) _ (read_name-ne-out_of_fuel (c ∷ ptr))
      (λ name. h _ _ (skip_name-shorter c ptr))

-- The rounds that are left never run out.
deserialize_loop-ne-out_of_fuel :
    (fuel : ℕ) (ptr : List ℕ) (b : BodyHead)
    → length ptr < fuel
    → deserialize_loop fuel ptr b ≢ out_of_fuel
unfolding deserialize_loop
deserialize_loop-ne-out_of_fuel zero ptr b h = absurd (omega arith)
deserialize_loop-ne-out_of_fuel (suc fuel) [] b h = λ e. cc
deserialize_loop-ne-out_of_fuel (suc fuel) (c ∷ ptr) b h =
    parse_round-ne-out_of_fuel (tag_of c) c ptr b (deserialize_loop fuel)
      (λ rest b' shorter. deserialize_loop-ne-out_of_fuel fuel rest b' (omega arith))

check_magic_num-ne-out_of_fuel : (ptr : List ℕ) → check_magic_num ptr ≢ out_of_fuel
unfolding check_magic_num
check_magic_num-ne-out_of_fuel [] = λ e. cc
check_magic_num-ne-out_of_fuel (a ∷ []) = λ e. cc
check_magic_num-ne-out_of_fuel (a ∷ b ∷ ptr) = λ e. cc

-- The parse of any buffer ends, in a body head or in a read behind the end of the buffer.
pub deserialize_body_head_ends :
    (ptr : List ℕ) (b : BodyHead) → deserialize_body_head ptr b ≢ out_of_fuel
unfolding deserialize_body_head
deserialize_body_head_ends ptr b =
    bind-ne-out_of_fuel (check_magic_num ptr) _ (check_magic_num-ne-out_of_fuel ptr) (λ recognised.
      elim (Bool-cases recognised) [
        | inl e ↦ rw e (deserialize_loop-ne-out_of_fuel _ _ b (omega (arith, length-drop-le 2 ptr)))
        | inr e ↦ rw e (λ p. cc)
      ])
