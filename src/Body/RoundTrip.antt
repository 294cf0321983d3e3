-- ===== src/Body/RoundTrip.antt =====
-- What a receiver reads from a body head that was written.
use y_rpc.Common.{
  list_laws, ℕ, zero, suc, ◌%◌, ◌^◌, ◌≤◌, ◌<◌, ◌≡◌, ◌≢◌, ◌∙◌, refl, sym, ap, List, [], ◌∷◌, ◌++◌,
  append-nil, length, drop-append, Run, done, arith,
}
use y_rpc.Body.{
  BodyHead, Tag, is_sender, is_recver, is_module, is_function, is_end, tag_of, append_name,
  tag_high, tag_low, write_name, serialize_body_head, read_bytes, read_name, skip_name,
  check_magic_num, parse_round, deserialize_loop, deserialize_body_head, sendertag, recvertag,
  moduletag, functiontag, size,
}
use y_rpc.Body.Size.{name_size, size-eq-names}

-- The length of a name fits its size byte.
abbrev pub IsName : List ℕ → Type 0
IsName name = length name < 2 ^ 8

pub record IsBodyHead (b : BodyHead) : Type 0 where
  pub sender_fits : IsName b.sender
  pub recver_fits : IsName b.recver
  pub module_fits : IsName b.module_name
  pub function_fits : IsName b.function

name_size-IsName : (name : List ℕ) → IsName name → name_size name ≤ 258
unfolding name_size
name_size-IsName [] fits = omega arith
name_size-IsName (c ∷ cs) fits = omega arith

-- A body head with such names is short.
pub size-IsBodyHead : (b : BodyHead) → IsBodyHead b → size b ≤ 1036
size-IsBodyHead b fits = omega (
  arith,
  size-eq-names b,
  name_size-IsName b.sender fits.sender_fits,
  name_size-IsName b.recver fits.recver_fits,
  name_size-IsName b.module_name fits.module_fits,
  name_size-IsName b.function fits.function_fits,
)

pub read_bytes-append : (name rest : List ℕ) → read_bytes (length name) (name ++ rest) ≡ done name
unfolding read_bytes
read_bytes-append [] rest = refl
read_bytes-append (c ∷ cs) rest = rw (read_bytes-append cs rest)

-- A name that was written is read and skipped as a whole.
read_name-written :
    (t u : ℕ) (name rest : List ℕ)
    → IsName name
    → read_name (t ∷ u ∷ (length name % 2 ^ 8) ∷ (name ++ rest)) ≡ done name
unfolding read_name
read_name-written t u name rest h =
    let e : length name % 2 ^ 8 ≡ length name = omega arith in rw e (read_bytes-append name rest)

skip_name-written :
    (t u : ℕ) (name rest : List ℕ)
    → IsName name
    → skip_name (t ∷ u ∷ (length name % 2 ^ 8) ∷ (name ++ rest)) ≡ rest
unfolding skip_name
skip_name-written t u name rest h =
    let e : length name % 2 ^ 8 ≡ length name = omega arith in rw e (drop-append name rest)

parse_round-written :
    (tag : Tag) (t u : ℕ) (name rest : List ℕ) (b : BodyHead)
    (next : List ℕ → BodyHead → Run BodyHead)
    → tag ≢ is_end
    → IsName name
    → parse_round tag (t ∷ u ∷ (length name % 2 ^ 8) ∷ (name ++ rest)) b next
      ≡ next rest (append_name tag name b)
unfolding parse_round
parse_round-written is_end t u name rest b next h fits = absurd (h refl)
parse_round-written tag t u name rest b next h fits =
    rw (read_name-written t u name rest fits, skip_name-written t u name rest fits)

-- A tag whose case appends to a field, and the field's name as it was written.
abbrev Written : Tag → ℕ → Type 0
Written tag number = (tag_of (tag_high number) ≡ tag) × (tag ≢ is_end)

append_name-nil : (tag : Tag) (b : BodyHead) → append_name tag [] b ≡ b
unfolding append_name
append_name-nil is_sender b = λ i. record b { sender = append-nil b.sender i }
append_name-nil is_recver b = λ i. record b { recver = append-nil b.recver i }
append_name-nil is_module b = λ i. record b { module_name = append-nil b.module_name i }
append_name-nil is_function b = λ i. record b { function = append-nil b.function i }
append_name-nil is_end b = refl

-- The loop passes a name that was written, for one round of fuel or none.
deserialize_loop-Written :
    (tag : Tag) (number : ℕ) (name rest : List ℕ) (b c : BodyHead) (fuel : ℕ)
    → Written tag number
    → IsName name
    → ((f : ℕ) → fuel ≤ f → deserialize_loop f rest (append_name tag name b) ≡ done c)
    → (f : ℕ) → fuel < f
    → deserialize_loop f (write_name number name ++ rest) b ≡ done c
unfolding write_name deserialize_loop
deserialize_loop-Written tag number [] rest b c fuel w fits h f enough =
    ap (deserialize_loop f rest) (sym (append_name-nil tag b)) ∙ h f (omega arith)
deserialize_loop-Written tag number (x ∷ xs) rest b c fuel w fits h zero enough =
    absurd (omega arith)
deserialize_loop-Written tag number (x ∷ xs) rest b c fuel w fits h (suc f) enough =
    ap
      (λ (t : Tag).
        parse_round t
          (tag_high number ∷ tag_low number ∷ (length (x ∷ xs) % 2 ^ 8) ∷ x ∷ (xs ++ rest)) b
          (deserialize_loop f))
      w.0
    ∙ parse_round-written tag (tag_high number) (tag_low number) (x ∷ xs) rest b
        (deserialize_loop f) w.1 fits
    ∙ h f (omega arith)

-- The object `old` with the names of `b` behind its own.
unfoldable pub appended : BodyHead → BodyHead → BodyHead
unfolding append_name
appended old b = record {
  sender = old.sender ++ b.sender;
  recver = old.recver ++ b.recver;
  module_name = old.module_name ++ b.module_name;
  function = old.function ++ b.function;
}

sender-Written : Written is_sender sendertag
unfolding tag_of
sender-Written = (refl, λ e. cc)

recver-Written : Written is_recver recvertag
unfolding tag_of
recver-Written = (refl, λ e. cc)

module-Written : Written is_module moduletag
unfolding tag_of
module-Written = (refl, λ e. cc)

function-Written : Written is_function functiontag
unfolding tag_of
function-Written = (refl, λ e. cc)

-- The data tag ends the loop.
end_tag :
    (rest : List ℕ) (b : BodyHead) (f : ℕ)
    → 1 ≤ f
    → deserialize_loop f (0x42 ∷ 0x44 ∷ rest) b ≡ done b
unfolding deserialize_loop tag_of parse_round
end_tag rest b zero h = absurd (omega arith)
end_tag rest b (suc f) h = refl

-- The loop over the four names and the data tag.
deserialize_loop-names :
    (old b : BodyHead) (rest : List ℕ) (f : ℕ)
    → IsBodyHead b
    → 4 < f
    → deserialize_loop f
        (write_name sendertag b.sender
          ++ (write_name recvertag b.recver
              ++ (write_name moduletag b.module_name
                  ++ (write_name functiontag b.function ++ (0x42 ∷ 0x44 ∷ rest)))))
        old
      ≡ done (appended old b)
unfolding appended append_name
deserialize_loop-names old b rest f fits enough =
    deserialize_loop-Written is_sender sendertag b.sender _ old _ 4 sender-Written fits.sender_fits
      (deserialize_loop-Written is_recver recvertag b.recver _ _ _ 3 recver-Written fits.recver_fits
        (deserialize_loop-Written is_module moduletag b.module_name _ _ _ 2 module-Written
          fits.module_fits
          (deserialize_loop-Written is_function functiontag b.function _ _ _ 1 function-Written
            fits.function_fits (end_tag rest _))))
      f enough

-- Names of at most 255 bytes are read back as they were written, whatever follows the body head,
-- each behind what the receiving object held before.
pub deserialize-serialize_body_head :
    (old b : BodyHead) (rest : List ℕ)
    → IsBodyHead b
    → deserialize_body_head (serialize_body_head b ++ rest) old ≡ done (appended old b)
unfolding serialize_body_head deserialize_body_head check_magic_num
deserialize-serialize_body_head old b rest fits =
    let enough = size-eq-names b in
    simp list_laws (deserialize_loop-names old b rest _ fits (omega arith))
