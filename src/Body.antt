-- ===== src/Body.antt =====
-- message/body_head.h and message/body_head.cpp: the four names before the user data of a message.
-- A `string` is the list of its bytes; `ptr[2] = size()` keeps the low eight bits of the size.
pub mod Size
pub mod Parse
pub mod RoundTrip
use y_rpc.Common.{
  ℕ, zero, suc, ◌+◌, ◌*◌, ◌/◌, ◌%◌, ◌^◌, Bool, true, false, not, List, [], ◌∷◌, ◌++◌, length, drop,
  ◌==◌, bit_or, Run, done, fault, out_of_fuel, ◌>>=◌, if◌then◌else◌,
}

abbrev pub body_magic_num : ℕ
body_magic_num = 0xA55A

abbrev pub sendertag : ℕ
sendertag = 0x534E

abbrev pub recvertag : ℕ
recvertag = 0x524E

abbrev pub moduletag : ℕ
moduletag = 0x4D4E

abbrev pub functiontag : ℕ
functiontag = 0x464E

abbrev pub bodydatatag : ℕ
bodydatatag = 0x4244

-- BODY_MAGIC_NUM_LENGTH, the length of each tag with its size byte, and BODYDATATAG_LENGTH
abbrev pub body_magic_num_length : ℕ
body_magic_num_length = 2

abbrev pub tag_length : ℕ
tag_length = 3

abbrev pub bodydatatag_length : ℕ
bodydatatag_length = 2

pub record BodyHead : Type 0 where
  pub sender : List ℕ
  pub recver : List ℕ
  pub module_name : List ℕ
  pub function : List ℕ

-- The constructor and `clear`
unfoldable pub clear : BodyHead
clear = record { sender = []; recver = []; module_name = []; function = [] }

unfoldable pub set_sender : List ℕ → BodyHead → BodyHead
set_sender name b = record b { sender = name }

unfoldable pub set_recver : List ℕ → BodyHead → BodyHead
set_recver name b = record b { recver = name }

unfoldable pub set_module : List ℕ → BodyHead → BodyHead
set_module name b = record b { module_name = name }

unfoldable pub set_function : List ℕ → BodyHead → BodyHead
set_function name b = record b { function = name }

-- `if(s.size())`
abbrev pub has_size : List ℕ → Bool
has_size [] = false
has_size (c ∷ cs) = true

-- The four tests of `size`, in order
unfoldable pub size : BodyHead → ℕ
size b =
    let n₀ = body_magic_num_length in
    let n₁ = (if has_size b.sender then n₀ + (length b.sender + tag_length) else n₀) in
    let n₂ = (if has_size b.recver then n₁ + (length b.recver + tag_length) else n₁) in
    let n₃ = (if has_size b.module_name then n₂ + (length b.module_name + tag_length) else n₂) in
    let n₄ = (if has_size b.function then n₃ + (length b.function + tag_length) else n₃) in
    n₄ + bodydatatag_length

-- The two bytes of a tag: `(TAG>>8) & 0xFF` and `TAG & 0xFF`
abbrev pub tag_high : ℕ → ℕ
tag_high tag = tag / 2 ^ 8 % 2 ^ 8

abbrev pub tag_low : ℕ → ℕ
tag_low tag = tag % 2 ^ 8

-- One `if(size())` block of SerializeBodyHead: the tag, the size byte and the whole name
unfoldable pub write_name : ℕ → List ℕ → List ℕ
write_name tag name =
    if has_size name then tag_high tag ∷ tag_low tag ∷ (length name % 2 ^ 8) ∷ name else []

-- The bytes that SerializeBodyHead writes, in the order of the writes.
unfoldable pub serialize_body_head : BodyHead → List ℕ
serialize_body_head b =
    tag_high body_magic_num
    ∷ tag_low body_magic_num
    ∷ (write_name sendertag b.sender
        ++ (write_name recvertag b.recver
            ++ (write_name moduletag b.module_name
                ++ (write_name functiontag b.function
                    ++ (tag_high bodydatatag ∷ tag_low bodydatatag ∷ [])))))

unfoldable pub check_magic_num : List ℕ → Run Bool
check_magic_num (a ∷ b ∷ rest) =
    done (if not (body_magic_num == bit_or (a * 2 ^ 8) b) then false else true)
check_magic_num short = fault

-- The first `n` bytes of a buffer, as `append((const char *)ptr, n)` reads them
unfoldable pub read_bytes : ℕ → List ℕ → Run (List ℕ)
read_bytes zero ptr = done []
read_bytes (suc n) [] = fault
read_bytes (suc n) (c ∷ ptr) = do cs ← read_bytes n ptr; done (c ∷ cs)

-- `ptr[2]` and the bytes behind it, which every tag's case reads
unfoldable pub read_name : List ℕ → Run (List ℕ)
unfolding read_bytes
read_name (t ∷ u ∷ n ∷ ptr) = read_bytes n ptr
read_name short = fault

-- `ptr += TAG_LENGTH + ptr[2]`
unfoldable pub skip_name : List ℕ → List ℕ
skip_name (t ∷ u ∷ n ∷ ptr) = drop n ptr
skip_name short = []

-- The cases of the `switch(ptr[0])`
pub data Tag : Type 0 where
  is_sender is_recver is_module is_function is_end : Tag

-- BODYDATATAG and `default` both end the loop.
unfoldable pub tag_of : ℕ → Tag
tag_of c =
    if c == tag_high sendertag
    then is_sender
    else (if c == tag_high recvertag
        then is_recver
        else (if c == tag_high moduletag
            then is_module
            else (if c == tag_high functiontag then is_function else is_end)))

-- The `append` of each case
unfoldable pub append_name : Tag → List ℕ → BodyHead → BodyHead
append_name is_sender name b = record b { sender = b.sender ++ name }
append_name is_recver name b = record b { recver = b.recver ++ name }
append_name is_module name b = record b { module_name = b.module_name ++ name }
append_name is_function name b = record b { function = b.function ++ name }
append_name is_end name b = b

-- One round of the `while(loop)`: a tag's case reads the name, appends it and moves on.
unfoldable pub parse_round :
    Tag → List ℕ → BodyHead → (List ℕ → BodyHead → Run BodyHead) → Run BodyHead
parse_round is_end ptr b next = done b
parse_round tag ptr b next = do name ← read_name ptr; next (skip_name ptr) (append_name tag name b)

-- The `while(loop)` of DeserializeBodyHead on fuel: each round but the last moves on by three bytes
-- at least, so that a buffer of `n` bytes takes at most `n` rounds.
unfoldable pub deserialize_loop : ℕ → List ℕ → BodyHead → Run BodyHead
deserialize_loop zero ptr b = out_of_fuel
deserialize_loop (suc fuel) [] b = fault
deserialize_loop (suc fuel) (c ∷ ptr) b = parse_round (tag_of c) (c ∷ ptr) b (deserialize_loop fuel)

-- DeserializeBodyHead into the object `b`
unfoldable pub deserialize_body_head : List ℕ → BodyHead → Run BodyHead
deserialize_body_head ptr b = do
  recognised ← check_magic_num ptr
  if recognised
      then deserialize_loop (suc (length ptr)) (drop body_magic_num_length ptr) b
      else done b
