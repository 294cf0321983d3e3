-- ===== src/Body/Size.antt =====
-- `size` is the number of bytes that SerializeBodyHead writes.
use y_rpc.Common.{list_laws, ℕ, ◌+◌, ◌≡◌, refl, List, [], ◌∷◌, length, arith}
use y_rpc.Body.{BodyHead, size, tag_length, write_name, serialize_body_head}

-- What one name adds to the size.
unfoldable pub name_size : List ℕ → ℕ
name_size [] = 0
name_size (c ∷ cs) = length (c ∷ cs) + tag_length

pub length-write_name : (tag : ℕ) (name : List ℕ) → length (write_name tag name) ≡ name_size name
unfolding write_name name_size
length-write_name tag [] = refl
length-write_name tag (c ∷ cs) = omega arith

pub size-eq-names :
    (b : BodyHead)
    → size b
      ≡ 4 + name_size b.sender + name_size b.recver + name_size b.module_name + name_size b.function
unfolding size name_size
size-eq-names b = ground arith

-- The buffer that a caller takes for `size` bytes is filled exactly, however long the names are.
pub length-serialize_body_head : (b : BodyHead) → length (serialize_body_head b) ≡ size b
unfolding serialize_body_head
length-serialize_body_head b = simp (list_laws, length-write_name) (omega (arith, size-eq-names b))
