-- ===== src/Messages/Sent.antt =====
-- What sctp_sendmsg sends (socketapi/sctpsocketwrapper.cc).
use socketapi.Prelude.{
  ℕ, ◌≡◌, refl, ap, ◌∙◌, false, ◌||◌, ◌&&◌, ◌==◌, none, some, Bytes, if◌then◌else◌,
}
use socketapi.Strings.Decimal.{ℤ, pos, neg}
use socketapi.Internet.{has_flag}
use socketapi.Descriptors.{SctpDesc, sctp, World, set_slot, errno_result, get_socket}
use socketapi.Descriptors.Calls.{bind_to_any}
use socketapi.Messages.{
  Flags, no_flags, msg_dontwait, msg_pr_sctp_ttl, infinite_lifetime, SendApi, SendRequest,
}
use socketapi.Messages.Sending.{
  SendEnd, error, by_socket, by_association, end_send, control_loop, send_message, send_single,
  send_on, ext_sendmsg, sctp_sendmsg_header,
}
use socketapi.Messages.Gather.{gather}

-- What an association is asked to send.
abbrev pub asked_of : (ℕ → Flags) → SctpDesc → Bytes → ℕ → ℕ → ℕ → ℕ → SendRequest
asked_of bits d bytes ppid flags stream timetolive = record {
  payload = bytes;
  flags = λ i.
      ((false || bits flags i) || bits flags i) || (has_flag d.flags 2048 && i == msg_dontwait);
  send_assoc_id = 0;
  stream = stream;
  ppid = ppid;
  lifetime = if bits flags msg_pr_sctp_ttl then timetolive else infinite_lifetime;
  max_attempts = d.sinit_max_attempts;
  max_init_timeo = d.sinit_max_init_timeo;
  use_defaults = false;
  destinations = none;
  out_streams = d.sinit_num_ostreams;
}

-- sctp_sendmsg without an address, on a descriptor with an association, makes the association send
-- the bytes on the stream, with the protocol ID, not with its defaults; they live for the time that is
-- given only where the flags have MSG_PR_SCTP_TTL, and O_NONBLOCK is among the flags as MSG_DONTWAIT.
-- What the association returns is returned through errno, and the descriptor stays as it was.
pub sctp_sendmsg-Sent :
    (api : SendApi) (bits : ℕ → Flags) (made : ℤ) (k a ppid flags stream timetolive : ℕ)
    (d : SctpDesc) (bytes : Bytes) (w : World)
    → get_socket (pos k) ≡ some k
    → w.sockets k ≡ sctp d
    → d.association_ptr ≡ some a
    → ext_sendmsg api bits made
        (pos k)
        (sctp_sendmsg_header bits bytes none ppid flags stream timetolive)
        no_flags
        w
      ≡ some (
          let v = (bind_to_any api.binder api.random d w).0 in
          errno_result
            (record v { sockets = set_slot v.sockets k (sctp d) })
            (api.association_sends a (asked_of bits d bytes ppid flags stream timetolive)))
unfolding ext_sendmsg send_on send_single control_loop send_message gather sctp_sendmsg_header
sctp_sendmsg-Sent api bits made k a ppid flags stream timetolive d bytes w slot at there =
    let h = sctp_sendmsg_header bits bytes none ppid flags stream timetolive in
    let q = asked_of bits d bytes ppid flags stream timetolive in
    let v = (bind_to_any api.binder api.random d w).0 in
    let found : ext_sendmsg api bits made (pos k) h no_flags w
        ≡ send_on api bits k made (w.sockets k) h no_flags w =
      rw (ext_sendmsg, slot) refl in
    found
    ∙ ap (λ x. send_on api bits k made x h no_flags w) at
    ∙ ap
        (λ o. some (
          end_send api
            (elim o as (λ x. SendEnd) [
              | some b ↦ by_association b q
              | none ↦ elim (d.socket_ptr) as (λ x. SendEnd) [
                | none ↦ error (neg 9)
                | some p ↦ by_socket p q
              ]
            ])
            (record v { sockets = set_slot v.sockets k (sctp d) })))
        there
