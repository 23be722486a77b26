-- ===== src/Association/Waiting.antt =====
-- What sendPreEstablishmentPackets (socketapi/sctpassociation.cc) does with the packets that wait.
use socketapi.Prelude.{
  ℕ, zero, suc, ◌≤◌, ◌≡◌, refl, ap, sym, ◌∙◌, inl, inr, Bool, true, false, List, [], ◌∷◌, ◌++◌,
  append_assoc, append-nil, some, none, if◌then◌else◌, arith, Bool-cases, length, map,
}
use socketapi.Strings.Decimal.{ℤ, pos}
use socketapi.Association.{
  Packet, Association, internal_send, note_call, int_eq, send_to, send_packets,
}

-- The packets that are sent, and those that are left: all that are in front of the first one that is
-- not sent in full; that one is tried, too.
unfoldable pub tried : (Packet → ℤ) → List Packet → List Packet
tried send [] = []
tried send (p ∷ ps) =
    let rest = tried send ps in if int_eq (send p) (length p.data_bytes) then p ∷ rest else p ∷ []

unfoldable pub left_over : (Packet → ℤ) → List Packet → List Packet
left_over send [] = []
left_over send (p ∷ ps) =
    let rest = left_over send ps in if int_eq (send p) (length p.data_bytes) then rest else p ∷ ps

abbrev pub is_done : List Packet → Bool
is_done [] = true
is_done (p ∷ ps) = false

-- When the association is up, and on as much fuel as packets wait, sendPreEstablishmentPackets ends.
-- It hands the packets to the socket in their order up to the first one that is not sent in full,
-- leaves that one and those behind it waiting, and tells whether none is left.
pub send_packets-tried :
    (send : Packet → ℤ) (memory : Bool) (f : ℕ) (ps : List Packet) (a : Association)
    → length ps ≤ f
    → send_packets send memory f (record a { up = true; packets = ps })
      ≡ some (
        record a {
          up = true;
          packets = left_over send ps;
          calls = a.calls ++ map internal_send (tried send ps);
        },
        is_done (left_over send ps),
      )
unfolding send_packets tried left_over send_to
send_packets-tried send memory zero [] a h =
    ap (λ c. some (record a { up = true; packets = []; calls = c }, true))
      (sym (append-nil a.calls))
send_packets-tried send memory (suc f) [] a h =
    ap (λ c. some (record a { up = true; packets = []; calls = c }, true))
      (sym (append-nil a.calls))
send_packets-tried send memory zero (p ∷ ps) a h = absurd (omega arith)
send_packets-tried send memory (suc f) (p ∷ ps) a h =
    elim (Bool-cases (int_eq (send p) (length p.data_bytes))) [
      | inl e ↦
          let b : Association = note_call (internal_send p) a in
          rw e (
            send_packets-tried send memory f ps b (omega arith)
            ∙ ap
                (λ c. some (
                  record a { up = true; packets = left_over send ps; calls = c },
                  is_done (left_over send ps),
                ))
                (append_assoc a.calls (internal_send p ∷ []) (map internal_send (tried send ps))))
      | inr e ↦ rw e refl
    ]

snoc-cons :
    (p : Packet) (qs : List Packet) → (q : Packet) × (rs : List Packet) × (qs ++ p ∷ [] ≡ q ∷ rs)
snoc-cons p [] = (p, [], refl)
snoc-cons p (q ∷ qs) = (q, qs ++ p ∷ [], refl)

-- Where the association is not up, there is memory for packets and at least one waits,
-- sendPreEstablishmentPackets does not end, whatever the fuel: each packet that it takes off the
-- front is put back at the end.
pub send_packets-endless :
    (send : Packet → ℤ) (f : ℕ) (p : Packet) (ps : List Packet) (a : Association)
    → send_packets send true f (record a { up = false; packets = p ∷ ps }) ≡ none
unfolding send_packets send_to
send_packets-endless send zero p ps a = refl
send_packets-endless send (suc f) p ps a =
    let (q, rs, e) = snoc-cons p ps in
    let all : int_eq (pos (length p.data_bytes)) (length p.data_bytes) ≡ true = ground arith in
    rw all (
      ap (λ l. send_packets send true f (record a { up = false; packets = l })) e
      ∙ send_packets-endless send f q rs a)
