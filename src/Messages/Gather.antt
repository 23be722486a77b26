-- ===== src/Messages/Gather.antt =====
-- The copy of several buffers into one (socketapi/sctpsocketwrapper.cc, ext_sendmsg).
use socketapi.Prelude.{
  ◌%◌, ◌||◌, Bool, false, leb, ℕ, zero, suc, ◌+◌, ◌==◌, List, [], ◌∷◌, ◌++◌, Option, none, some,
  Bytes, length, if◌then◌else◌,
}

-- The new array as a function, and the write of an element.
abbrev pub Buffer : Type 0
Buffer = ℕ → ℕ

abbrev pub put_byte : ℕ → ℕ → Buffer → Buffer
put_byte j c b i = if i == j then c else b i

-- The first loop: how many bytes are needed.
unfoldable pub required : List Bytes → ℕ
required [] = 0
required (s ∷ ss) = length s + required ss

-- The loops that copy: the array and the index behind what is written, which is an unsigned int.
unfoldable pub copy_bytes : Bytes → Buffer → ℕ → Buffer × ℕ
copy_bytes [] b j = (b, j)
copy_bytes (c ∷ s) b j = copy_bytes s (put_byte j c b) ((j + 1) % 0x1_0000_0000)

unfoldable pub copy_buffers : List Bytes → Buffer → ℕ → Buffer × ℕ
copy_buffers [] b j = (b, j)
copy_buffers (s ∷ ss) b j = let (x, k) = copy_bytes s b j in copy_buffers ss x k

-- The first `n` elements from the index `i` on.
unfoldable pub read_bytes : Buffer → ℕ → ℕ → Bytes
read_bytes b i zero = []
read_bytes b i (suc n) = b i ∷ read_bytes b (i + 1) n

-- A loop that counts to `n` with an unsigned int does not end.
abbrev pub is_endless : ℕ → Bool
is_endless n = leb 0x1_0000_0000 n

abbrev pub any_endless : List Bytes → Bool
any_endless [] = false
any_endless (s ∷ ss) = is_endless (length s) || any_endless ss

-- What ext_sendmsg sends: the bytes of the only buffer, or those of the copy; `none` without one, and
-- where a loop does not end.
unfoldable pub gather : List Bytes → Option Bytes
gather [] = none
gather (s ∷ []) = some s
gather (s ∷ t ∷ ss) =
    let copy = (copy_buffers (s ∷ t ∷ ss) (λ i. 0) 0).0 in
    if is_endless (length (s ∷ t ∷ ss)) || any_endless (s ∷ t ∷ ss)
    then none
    else some (read_bytes copy 0 (required (s ∷ t ∷ ss)))

abbrev pub join : List Bytes → Bytes
join [] = []
join (s ∷ ss) = s ++ join ss
