-- ===== src/Descriptors/Connecting.antt =====
-- What connecting leaves in the table of descriptors (socketapi/sctpsocketwrapper.cc: ext_connectx).
use socketapi.Prelude.{
  ℕ, zero, suc, ◌+◌, ◌-◌, ◌%◌, Bool, true, false, ◌≡◌, refl, sym, ap, ◌∙◌, inl, inr, Option, none,
  some, List, [], ◌∷◌, ◌++◌, ◌==◌, Bool-cases, All, arith, append-nil, append_assoc,
}
use socketapi.Strings.Decimal.{ℤ, pos, negsuc, neg}
use socketapi.Internet.System.{Sockaddr}
use socketapi.Addresses.{SocketAddress}
use socketapi.Descriptors.{
  SctpDesc, sctp, Effect, close_fd, new_socket, set_notification_flags, shutdown_association,
  abort_association, delete_association, delete_socket, unbind, bind_socket, listen_socket,
  set_association_flags, socket_address, association_address, World, note_effect, set_slot,
  errno_result, get_socket, failed,
}
use socketapi.Descriptors.Packing.{Memory, unpack_sockaddr}
use socketapi.Descriptors.Calls.{Api, bind_any_loop, bind_to_any, make_addresses}
use socketapi.Descriptors.Connect.{
  ConnectApi, associated, is_nonblocking, connect_end, connect_socket, connectx_on, ext_connectx,
}

abbrev pub is_bind : ℕ → Effect → Bool
is_bind p (bind_socket q port ins outs) = p == q
is_bind p (close_fd fd) = false
is_bind p (new_socket q domain flags) = false
is_bind p (set_notification_flags q flags) = false
is_bind p (shutdown_association a) = false
is_bind p (abort_association a) = false
is_bind p (delete_association a) = false
is_bind p (delete_socket q) = false
is_bind p (unbind q b) = false
is_bind p (listen_socket q n) = false
is_bind p (set_association_flags a n) = false
is_bind p (socket_address q b n) = false
is_bind p (association_address a b n) = false

-- From `w` to `v`, only binds of the socket `p` are made.
abbrev pub OnlyBinds : ℕ → World → World → Type 0
OnlyBinds p w v =
    (es : List Effect) × (v.effects ≡ w.effects ++ es) × All (λ e. is_bind p e ≡ true) es

bind_any_loop-OnlyBinds :
    (api : Api) (random : ℕ → ℕ) (d : SctpDesc) (p n i : ℕ) (result : ℤ) (w : World)
    → ((bind_any_loop api random d p n i result w).0.sockets ≡ w.sockets)
      × OnlyBinds p w (bind_any_loop api random d p n i result w).0
unfolding bind_any_loop
bind_any_loop-OnlyBinds api random d p zero i result w =
    (refl, ([], sym (append-nil w.effects), tt))
bind_any_loop-OnlyBinds api random d p (suc n) i result w =
    let port = 16384 + random i % (61000 - 16384) in
    let e = bind_socket p port d.sinit_max_instreams d.sinit_num_ostreams in
    let tried = api.bind p port (api.any_address port ∷ []) in
    let (same, (es, made, binds)) =
      bind_any_loop-OnlyBinds api random d p n (i + 1) tried (note_effect e w) in
    let this : (p == p) ≡ true = ground arith in
    elim (Bool-cases (failed tried)) [
      | inl t ↦ rw t (same, (e ∷ es, made ∙ append_assoc w.effects (e ∷ []) es, (this, binds)))
      | inr t ↦ rw t (refl, (e ∷ [], refl, (this, tt)))
    ]

errno_result-calls :
    (w : World) (r : ℤ)
    → ((errno_result w r).0.sockets ≡ w.sockets) × ((errno_result w r).0.effects ≡ w.effects)
unfolding errno_result
errno_result-calls w (pos n) = (refl, refl)
errno_result-calls w (negsuc n) = (refl, refl)

-- A connection-oriented descriptor with the socket `p`.
abbrev pub with_socket : SctpDesc → ℕ → SctpDesc
with_socket d p = record d { connection_oriented = true; socket_ptr = some p }

bind_to_any-OnlyBinds :
    (api : Api) (random : ℕ → ℕ) (d : SctpDesc) (p : ℕ) (w : World)
    → ((bind_to_any api random (with_socket d p) w).0.sockets ≡ w.sockets)
      × OnlyBinds p w (bind_to_any api random (with_socket d p) w).0
unfolding bind_to_any
bind_to_any-OnlyBinds api random d p w =
    let bound = bind_any_loop api random (with_socket d p) p 50000 0 (pos 0) w in
    let (same, (es, made, binds)) =
      bind_any_loop-OnlyBinds api random (with_socket d p) p 50000 0 (pos 0) w in
    let (fst_kept, snd_kept) = errno_result-calls bound.0 bound.1 in
    let (table, calls) = errno_result-calls w (pos 0) in
    elim (Bool-cases (api.id_of p == 0)) [
      | inl e ↦ rw e (fst_kept ∙ same, (es, snd_kept ∙ made, binds))
      | inr e ↦ rw e (table, ([], calls ∙ sym (append-nil w.effects), tt))
    ]

-- What a connection-oriented connect tells: EIO is 5 and EINPROGRESS 115.
abbrev pub Answer : ConnectApi → Bool → Option ℕ → World → ℤ → ℕ → Type 0
Answer api nonblocking none v r id = (r ≡ neg 1) × (v.errno ≡ 5) × (id ≡ 0)
Answer api true (some a) v r id = (r ≡ neg 1) × (v.errno ≡ 115) × (id ≡ 0)
Answer api false (some a) v r id = (r ≡ pos 0) × (id ≡ api.association_id a)

connect_end-Answer :
    (api : ConnectApi) (b : Bool) (made : Option ℕ) (v : World)
    → (u : World) × (r : ℤ) × (id : ℕ) × (connect_end api b made v ≡ (u, r, some id))
      × (u.sockets ≡ v.sockets)
      × (u.effects ≡ v.effects)
      × Answer api b made u r id
unfolding connect_end errno_result neg
connect_end-Answer api b none v =
    (record v { errno = 5 }, neg 1, 0, refl, refl, refl, (refl, refl, refl))
connect_end-Answer api true (some a) v =
    (record v { errno = 115 }, neg 1, 0, refl, refl, refl, (refl, refl, refl))
connect_end-Answer api false (some a) v =
    (v, pos 0, api.association_id a, refl, refl, refl, (refl, refl))

abbrev pub with_association : SctpDesc → Option ℕ → SctpDesc
with_association d a = record d { association_ptr = a }

abbrev pub Replaces :
    ConnectApi → ℕ → ℕ → SctpDesc → Option ℕ → World → Option (World × ℤ × Option ℕ) → Type 0
Replaces api k p d made w result =
    (v : World) × (r : ℤ) × (id : ℕ) × (result ≡ some (v, r, some id))
    × (v.sockets ≡ set_slot w.sockets k (sctp (with_association d made)))
    × OnlyBinds p w v
    × Answer api (is_nonblocking d) made v r id

-- ext_connectx of good addresses on a connection-oriented descriptor with a socket puts what associate
-- returns into the descriptor, whatever association it had, leaves the other slots as they are and makes
-- no other call than binds of the socket, so an association that the descriptor had is neither shut
-- down nor deleted. It tells EIO where associate fails, EINPROGRESS where the descriptor is
-- non-blocking, and else 0 and the new association's ID.
pub ext_connectx-Replaces :
    (api : ConnectApi) (packed : Memory) (count k p : ℕ) (addrs : List Sockaddr)
    (xs : List SocketAddress) (d : SctpDesc) (w : World)
    → unpack_sockaddr count 0 packed ≡ some addrs
    → get_socket (pos k) ≡ some k
    → w.sockets k ≡ sctp (with_socket d p)
    → make_addresses api.binder addrs ≡ some xs
    → Replaces api k p
        (with_socket d p)
        (associated api (with_socket d p) p xs)
        w
        (ext_connectx api packed count (pos k) w)
unfolding ext_connectx connectx_on connect_socket
ext_connectx-Replaces api packed count k p addrs xs d w unpacked slot at good =
    let s = with_socket d p in
    let u = (bind_to_any api.binder api.random s w).0 in
    let (same, (es, calls, binds)) = bind_to_any-OnlyBinds api.binder api.random d p w in
    let made = associated api s p xs in
    let e = sctp (with_association s made) in
    let (x, r, id, ends, table, kept, tells) =
      connect_end-Answer api (is_nonblocking s) made
        (record u { sockets = set_slot u.sockets k e }) in
    (
      x,
      r,
      id,
      rw (unpacked, slot, at, good, ext_connectx, connectx_on, connect_socket) (ap some ends),
      table ∙ ap (λ t. set_slot t k e) same,
      (es, kept ∙ calls, binds),
      tells,
    )
