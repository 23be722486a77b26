-- ===== src/Messages/Buffers.antt =====
-- The loop of ext_recvmsg2 over several buffers (socketapi/sctpsocketwrapper.cc).
use socketapi.Prelude.{
  ℕ, ◌+◌, ◌<◌, ◌≡◌, Bool, true, ◌&&◌, List, [], ◌∷◌, Option, none, some, Bytes, length, ◌==◌, ltb,
  if◌then◌else◌,
}
use socketapi.Strings.Decimal.{ℤ, pos, negsuc}
use socketapi.Descriptors.{SctpDesc, World, errno_result}
use socketapi.Options.Access.{by_association, target}
use socketapi.Messages.{Flags}
use socketapi.Messages.Receive.{
  RecvApi, RecvHeader, OneBuffer, msg_eor, flags_for, filled_header, recv_single,
}

-- Whether the call on a buffer gave bytes, and how many.
abbrev pub gained : ℤ → ℕ
gained (pos n) = n
gained (negsuc n) = 0

abbrev pub is_short : ℤ → ℕ → Bool
is_short (pos n) size = ltb n size
is_short (negsuc n) size = true

-- What ext_recvmsg2 leaves: the state, the header, the bytes of the buffers that were used, and the
-- result.
abbrev pub Read : Type 0 → Type 0
Read R = R × World × RecvHeader × List Bytes × ℤ

abbrev add_buffer : {R : Type 0} → Bytes → Option (Read R) → Option (Read R)
add_buffer b none = none
add_buffer b (some (s, w, h, bs, r)) = some (s, w, h, b ∷ bs, r)

module _ {R : Type 0} (api : RecvApi R) (n : ℕ) (d : SctpDesc) (f : Flags)
    (notifications : Bool) where
  -- The loop from the first of the sizes on; `total` is what the buffers in front of it got.
  unfoldable pub recv_buffers : List ℕ → ℕ → RecvHeader → R → World → Option (Read R)
  recv_buffers [] total h s w = some (s, w, h, [], pos total)
  recv_buffers (size ∷ sizes) total h s w = elim (recv_single api n d f notifications size h s) [
    | none ↦ none
    | some (u, one) ↦
        let (v, sub) = errno_result w one.one_result in
        let sum = total + gained sub in
        let rest = recv_buffers sizes sum one.header u v in
        if sum == 0
        then some (u, v, one.header, one.contents ∷ [], sub)
        else if is_short sub one.iov_len && one.header.header_flags msg_eor
        then some (u, v, one.header, one.contents ∷ [], pos sum)
        else add_buffer one.contents rest
  ]

abbrev pub total_length : List Bytes → ℕ
total_length [] = 0
total_length (b ∷ bs) = length b + total_length bs

module _ {R : Type 0} (api : RecvApi R) (d : SctpDesc) (a : ℕ) (f : Flags)
    (notifications : Bool) where
  -- The calls of receive that the loop makes from the state `s` on, one for each of the sizes, succeed, and
  -- each gives at least one byte; MSG_EOR may be set or not behind each of them.
  abbrev pub Fills : List ℕ → RecvHeader → R → Type 0
  Fills [] h s = Unit
  Fills (size ∷ sizes) h s =
      let t = by_association a in
      let (u, got) = api.receive t size (flags_for d f notifications h) s in
      ((m : ℕ) × (got.result ≡ pos m))
      × (0 < length got.bytes)
      × Fills sizes (filled_header api d t u got h) u

  -- The bytes that these calls give, the state behind them and the header.
  abbrev pub received : List ℕ → RecvHeader → R → R × RecvHeader × List Bytes
  received [] h s = (s, h, [])
  received (size ∷ sizes) h s =
      let t = by_association a in
      let (u, got) = api.receive t size (flags_for d f notifications h) s in
      let (x, g, bs) = received sizes (filled_header api d t u got h) u in (x, g, got.bytes ∷ bs)

module _ {R : Type 0} (api : RecvApi R) (n : ℕ) (d : SctpDesc) (a : ℕ)
    (there : target d ≡ by_association a) where
  -- The call on one buffer; the length that is left in iov_len is what was received.
  abbrev filled : Flags → Bool → ℕ → RecvHeader → R → R × OneBuffer
  filled f b size h s =
      let t = by_association a in
      let (u, got) = api.receive t size (flags_for d f b h) s in
      (
        u,
        record {
          header = filled_header api d t u got h;
          one_result = pos (length got.bytes);
          iov_len = length got.bytes;
          contents = got.bytes;
        },
      )
