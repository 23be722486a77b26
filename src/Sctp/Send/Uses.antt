-- ===== src/Sctp/Send/Uses.antt =====
-- The use count of an association through sendTo (socketapi/sctpsocket.cc).
use socketapi.Prelude.{
  ℕ, ◌+◌, ◌-◌, ◌%◌, ◌^◌, ◌<◌, ◌≡◌, refl, ap, subst, ◌∙◌, Bool, true, false, not, [], ◌∷◌, ◌++◌,
  Option, none, some, length, ◌==◌, if◌then◌else◌, arith,
}
use socketapi.Strings.Decimal.{ℤ, pos}
use socketapi.Association.{Association, Packet, internal_send, send_to, note_call}
use socketapi.Sctp.{Socket, Master, find_association, put_association}
use socketapi.Sctp.Find.{find-put_same}
use socketapi.Sctp.Notify.{use_more}
use socketapi.Sctp.Send.{SendCall, Sender, send_done, send_on, send_known}

-- How often the association is in use after a call.
abbrev pub UseAfter : ℕ → ℕ → Option (Socket × Master × ℤ) → Type 0
UseAfter id count none = ⊥
UseAfter id count (some (s, m, result)) =
    (a : Association) × (find_association id s.associations ≡ some a) × (a.use_count ≡ count)

-- Sending a packet leaves the number and the use count.
send_to-kept :
    (send : Packet → ℤ) (memory : Bool) (p : Packet) (a : Association)
    → ((send_to send memory p a).0.assoc_id ≡ a.assoc_id)
      × ((send_to send memory p a).0.use_count ≡ a.use_count)
unfolding send_to
send_to-kept send memory p a = both a.up memory
  where
    both :
        (up has : Bool)
        → let r : Association × ℤ =
            if not up
            then (
              if has then record a { packets = a.packets ++ p ∷ [] } else a,
              pos (length p.data_bytes),
            )
            else (note_call (internal_send p) a, send p) in
          (r.0.assoc_id ≡ a.assoc_id) × (r.0.use_count ≡ a.use_count)
    both true has = (refl, refl)
    both false true = (refl, refl)
    both false false = (refl, refl)

send_done-UseAfter :
    (env : Sender) (a : Association) (result : ℤ) (s : Socket) (m : Master) (count : ℕ)
    → find_association a.assoc_id s.associations ≡ some a
    → a.use_count ≡ count + 1
    → UseAfter a.assoc_id count (send_done env a.assoc_id result s m)
unfolding send_done
send_done-UseAfter env a result s m count f more =
    let in_use : (a.use_count == 0) ≡ false = ground (arith, more) in
    let used = record a { last_usage = env.now; use_count = a.use_count - 1 } in
    rw (f, in_use, send_done) (used, find-put_same used s.associations a f, omega (arith, more))

-- sendTo of data to an association that is known, without MSG_ABORT and MSG_EOF, does not end the process,
-- and leaves the association in use as often as before.
pub send_known-UseAfter :
    (env : Sender) (c : SendCall) (a : Association) (s : Socket) (m : Master)
    → find_association a.assoc_id s.associations ≡ some a
    → a.use_count + 1 < 2 ^ 32
    → c.no_data ≡ false
    → c.msg_abort ≡ false
    → c.msg_eof ≡ false
    → UseAfter a.assoc_id a.use_count (send_known env c a s m)
unfolding send_known send_on
send_known-UseAfter env c a s m f bound full no_abort no_eof =
    let more : (a.use_count + 1) % 2 ^ 32 ≡ a.use_count + 1 = omega arith in
    let b = use_more a in
    let t = record s { associations = put_association b s.associations } in
    let g : find_association a.assoc_id t.associations ≡ some b =
      find-put_same b s.associations a f in
    let sent = send_to env.send env.has_memory c.packet b in
    let d = sent.0 in
    let (same_id, same_use) = send_to-kept env.send env.has_memory c.packet b in
    let g' = ap (λ i. find_association i t.associations) same_id ∙ g in
    let placed = find-put_same d t.associations b g' in
    let done =
      send_done-UseAfter env d sent.1 (record t { associations = put_association d t.associations })
        m a.use_count placed (same_use ∙ more) in
    rw (full, no_eof, no_abort, send_known, send_on)
      (subst
        (λ i. UseAfter i a.use_count (
          send_done env d.assoc_id sent.1
            (record t { associations = put_association d t.associations }) m))
        same_id done)
