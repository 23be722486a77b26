-- ===== src/Options/Read.antt =====
-- What ext_getsockopt reads (socketapi/sctpsocketwrapper.cc): getAssocStatus, getRTOInfo, getDelayedAckTime,
-- getAssocInfo, getPeerAddressInfo and configurePeerAddressParams.
use socketapi.Prelude.{ℕ, ◌-◌, ◌/◌, ◌%◌, Bool, ◌==◌, ltb, Option, none, some, if◌then◌else◌}
use socketapi.Strings.Decimal.{ℤ, pos, negsuc, neg}
use socketapi.Descriptors.{SctpDesc, failed}
use socketapi.Descriptors.Calls.{as_int}
use socketapi.Options.{AssocStatus, PathStatus, SctpLib, AddressApi, Objects}
use socketapi.Options.Methods.{get_assoc_defaults}
use socketapi.Options.Values.{
  RtoInfo, SackInfo, AssocParams, StatusInfo, PaddrInfo, PaddrParams, SockOption, autoclose,
  rtoinfo, delayed_sack, associnfo, peer_addr_params, status, get_peer_addr_info, size_int,
  size_rto_info, size_assoc_params, size_paddr_params, size_paddr_info, size_status_info,
  size_sack_info,
}
use socketapi.Options.Access.{get_assoc_params, get_path_status, set_path_status, get_primary_info}

-- What a call leaves: the result in front of errno, the option behind it and the length that is
-- written.
abbrev pub Reply : Type 0
Reply = ℤ × SockOption × ℕ

-- The bits of an int.
abbrev pub int_bits : ℤ → ℕ
int_bits (pos n) = n % 0x1_0000_0000
int_bits (negsuc n) = 0xffff_ffff - n % 0x1_0000_0000

-- The reply of getRTOInfo for what getAssocParams finds.
abbrev pub read_rto : RtoInfo → ℕ → Option (ℕ × AssocStatus) → Reply
read_rto x len none = (neg 1, rtoinfo (some x), len)
read_rto x len (some (id, p)) = (
  pos 0,
  rtoinfo (
      some (record {
        srto_assoc_id = id;
        srto_initial = p.rto_initial;
        srto_max = p.rto_max;
        srto_min = p.rto_min;
      })),
  size_rto_info,
)

module _ {S : Type 0} (lib : SctpLib S) where
  unfoldable pub get_rto_info : SctpDesc → RtoInfo → ℕ → Objects S → Reply
  get_rto_info d x len o = read_rto x len (get_assoc_params lib d x.srto_assoc_id o)

  -- The number of the association that the calls on the delay use.
  abbrev pub delay_id : SctpDesc → SackInfo → Objects S → ℕ
  delay_id d x o =
      let of_pointer : ℕ = elim (d.association_ptr) [
        | none ↦ 0
        | some a ↦ (o.associations a).assoc_id
      ] in
      if x.sack_assoc_id == 0 then of_pointer else x.sack_assoc_id

  -- The instance's parameters, by the socket.
  abbrev instance_delay : SctpDesc → Objects S → Option ℕ
  instance_delay d o = elim (d.socket_ptr) [
    | none ↦ none
    | some p ↦ elim (get_assoc_defaults lib p o) [ none ↦ none | some x ↦ some x.default_delay ]
  ]

  unfoldable pub get_delayed_ack_time : SctpDesc → SackInfo → ℕ → Objects S → Reply
  get_delayed_ack_time d x len o =
      let id = delay_id d x o in
      let by_default : Reply = elim (instance_delay d o) [
        | none ↦ (neg 22, delayed_sack (some x), len)
        | some n ↦ (pos 0, delayed_sack (some (record x { sack_delay = n })), size_sack_info)
      ] in
      let of_association : Reply = elim (get_assoc_params lib d id o) [
        | none ↦ (neg 1, delayed_sack (some x), len)
        | some (i, p) ↦
            (pos 0, delayed_sack (some (record x { sack_delay = p.delay })), size_sack_info)
      ] in
      if id == 0 then by_default else of_association

  unfoldable pub get_assoc_info : SctpDesc → AssocParams → ℕ → Objects S → Reply
  get_assoc_info d x len o = elim (get_assoc_params lib d x.sasoc_assoc_id o) [
    | none ↦ (neg 1, associnfo (some x), len)
    | some (id, p) ↦ (
      pos 0,
      associnfo (
          some (record {
            sasoc_assoc_id = id;
            sasoc_asocmaxrxt = p.max_retransmits % 0x1_0000;
            sasoc_number_peer_destinations = p.destination_paths % 0x1_0000;
            sasoc_peer_rwnd = 0;
            sasoc_local_rwnd = p.receiver_window;
            sasoc_cookie_life = p.cookie_life;
          })),
      size_assoc_params,
    )
  ]

  -- SCTP_AUTOCLOSE: the seconds of the socket, cut to 32 bits.
  unfoldable pub get_autoclose : SctpDesc → ℕ → ℕ → Objects S → Reply
  get_autoclose d x len o = elim (d.socket_ptr) [
    | none ↦ (neg 9, autoclose (some x), len)
    | some p ↦ (
      pos 0,
      autoclose (some ((o.socket_settings p).auto_close / 1000000 % 0x1_0000_0000)),
      size_int,
    )
  ]

  -- SO_SNDBUF and SO_RCVBUF: -EIO where the int is negative.
  abbrev buffer_reply : (Option ℕ → SockOption) → ℤ → Reply
  buffer_reply option size =
      let bits = int_bits size in
      (if failed (as_int bits) then neg 5 else pos 0, option (some bits), size_int)

  unfoldable pub get_buffer :
      (Option ℕ → SockOption) → (ℕ → Objects S → ℤ) → SctpDesc → ℕ → ℕ → Objects S → Reply
  get_buffer option read d x len o = elim (d.association_ptr) [
    | none ↦ (neg 9, option (some x), len)
    | some a ↦ buffer_reply option (read a o)
  ]

  module _ (api : AddressApi) (fresh : PathStatus) where
    -- getAssocStatus. The struct is filled where the primary path cannot be read, too.
    unfoldable pub get_status_info : SctpDesc → StatusInfo → ℕ → Objects S → Option Reply
    get_status_info d x len o = elim (get_assoc_params lib d x.sstat_assoc_id o) [
      | none ↦ some (neg 1, status (some x), len)
      | some (id, p) ↦ elim (get_primary_info lib api fresh d id x.sstat_primary o) [
        | none ↦ none
        | some (result, primary) ↦ some (
          result,
          status (
              some (record {
                sstat_assoc_id = id;
                sstat_state = p.state;
                sstat_rwnd = p.receiver_window;
                sstat_unackdata = p.retransmission_chunks % 0x1_0000;
                sstat_penddata = p.reception_chunks % 0x1_0000;
                sstat_instrms = p.in_streams % 0x1_0000;
                sstat_outstrms = p.out_streams % 0x1_0000;
                sstat_fragmentation_point = 0;
                sstat_primary = primary;
              })),
          size_status_info,
        )
      ]
    ]

    -- getPeerAddressInfo. SCTP_INACTIVE is 0 and SCTP_ACTIVE 1.
    unfoldable pub get_peer_address_info : SctpDesc → PaddrInfo → ℕ → Objects S → Option Reply
    get_peer_address_info d x len o =
        elim (get_path_status lib api fresh d x.spinfo_assoc_id x.spinfo_address o) [
          | none ↦ none
          | some (result, p) ↦ some (
              if failed result then (result, get_peer_addr_info (some x), len) else (
                result,
                get_peer_addr_info (
                    some (record x {
                      spinfo_state = if p.path_state == 1 then 0 else 1;
                      spinfo_cwnd = p.cwnd;
                      spinfo_srtt = p.srtt;
                      spinfo_rto = p.rto;
                      spinfo_mtu = p.mtu;
                    })),
                size_paddr_info,
              ))
        ]

    -- What configurePeerAddressParams leaves in the struct. SPP_HB_ENABLE is 1 and SPP_HB_DISABLE 2.
    abbrev pub filled_params : PaddrParams → PathStatus → PaddrParams
    filled_params x p =
        let interval = if x.spp_hbinterval == 0 then p.heartbeat_interval else x.spp_hbinterval in
        record x {
          spp_hbinterval = interval;
          spp_pathmaxrxt = 0;
          spp_pathmtu = p.mtu;
          spp_sackdelay = 0;
          spp_flags = if ltb 0 interval then 1 else 2;
        }

    -- configurePeerAddressParams, which both calls use.
    unfoldable pub configure_peer_address_params :
        Bool → SctpDesc → PaddrParams → ℕ → Objects S → Option (Objects S × Reply)
    configure_peer_address_params read_only d x len o =
        elim (get_path_status lib api fresh d x.spp_assoc_id x.spp_address o) [
          | none ↦ none
          | some (result, p) ↦
              let y = filled_params x p in
              let q = record p { heartbeat_interval = y.spp_hbinterval } in
              let reply = peer_addr_params (some y) in
              let written : Option (Objects S × Reply) =
                elim (set_path_status lib api d x.spp_assoc_id x.spp_address q o) [
                  | none ↦ none
                  | some (v, r) ↦ some (v, (r, reply, size_paddr_params))
                ] in
              if failed result
              then some (o, (result, peer_addr_params (some x), len))
              else if read_only
              then some (o, (result, reply, size_paddr_params))
              else written
        ]
