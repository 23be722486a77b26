-- ===== src/Options/Held.antt =====
-- The settings that the descriptor and the socket hold themselves, written and then read
-- (socketapi/sctpsocketwrapper.cc, sctpsocket.icc).
use socketapi.Prelude.{
  ◌⊎◌, inl, inr, none, Option-cases, ℕ, ◌*◌, ◌/◌, ◌%◌, ◌^◌, ◌<◌, ◌≤◌, ◌≡◌, refl, ap, true, false,
  ◌==◌, ltb, some, arith,
}
use socketapi.Strings.Decimal.{ℤ, pos}
use socketapi.Association.{StreamTimeout}
use socketapi.Descriptors.{SctpDesc, sctp, World, set_slot, errno_result, get_socket}
use socketapi.Options.{PathStatus, SctpLib, AddressApi, Objects, put_settings}
use socketapi.Options.Methods.{set_auto_close}
use socketapi.Options.Values.{
  Linger, InitMsg, SockOption, autoclose, initmsg, so_linger, size_int, size_init_msg, size_linger,
}
use socketapi.Options.Read.{Reply, get_autoclose}
use socketapi.Options.Get.{get_option, get_option_on, ext_getsockopt}
use socketapi.Options.Write.{errno_return}
use socketapi.Options.Set.{
  set_autoclose, set_initmsg, set_linger, set_option, set_option_on, ext_setsockopt,
}

module _ {S : Type 0} (lib : SctpLib S) (api : AddressApi) (fresh : PathStatus)
    (new : ℕ → StreamTimeout) (k : ℕ) where
  -- What a call of setsockopt with the option `v` and one of getsockopt with `y` behind it give: both
  -- succeed, the first one changing at most the slot of the descriptor and the objects, and the second
  -- one nothing, and `v` is read.
  abbrev pub Read : SockOption → SockOption → ℕ → ℕ → Objects S → World → Type 0
  Read v y len size o w =
      (made : ℤ) (made' : Reply)
      → (u : World) × (p : Objects S) × (ext_setsockopt lib api fresh new made (pos k) v len o w
          ≡ some (u, p, pos 0))
        × (ext_getsockopt lib api fresh made' (pos k) y len p u ≡ some (u, pos 0, v, size))
        × (u.errno ≡ w.errno)

module _ {S : Type 0} (lib : SctpLib S) (api : AddressApi) (fresh : PathStatus)
    (new : ℕ → StreamTimeout) (k : ℕ) (slot : get_socket (pos k) ≡ some k) where
  -- A call that succeeds on a descriptor writes the descriptor back.
  set_through :
      (made : ℤ) (v : SockOption) (len : ℕ) (d e : SctpDesc) (o p : Objects S) (w : World)
      → w.sockets k ≡ sctp d
      → set_option lib api fresh new d v len o ≡ some (e, p, errno_return (pos 0))
      → ext_setsockopt lib api fresh new made (pos k) v len o w
        ≡ some (record w { sockets = set_slot w.sockets k (sctp e) }, p, pos 0)
  unfolding ext_setsockopt set_option_on set_slot errno_result
  set_through made v len d e o p w at done = rw (ext_setsockopt, slot, at, set_option_on, done) refl

  get_through :
      (made : Reply) (v a : SockOption) (len n : ℕ) (d : SctpDesc) (o : Objects S) (w : World)
      → w.sockets k ≡ sctp d
      → get_option lib api fresh d v len o ≡ some (pos 0, a, n)
      → ext_getsockopt lib api fresh made (pos k) v len o w ≡ some (w, pos 0, a, n)
  unfolding ext_getsockopt get_option_on errno_result
  get_through made v a len n d o w at done = rw (ext_getsockopt, slot, at, get_option_on, done) refl

  linger-set :
      (d : SctpDesc) (n m len : ℕ) (o : Objects S)
      → n ≤ 1
      → size_linger ≤ len
      → set_option lib api fresh new d
          (so_linger (some (record { onoff = pos n; linger = pos m })))
          len
          o
        ≡ some (record d { l_onoff = n; l_linger = m }, o, errno_return (pos 0))
  unfolding set_option set_linger
  linger-set d n m len o small long =
      let a : ltb 1 n ≡ false = ground arith in
      let b : ltb len size_linger ≡ false = ground arith in rw (set_option, b, set_linger, a) refl

  linger-get :
      (d : SctpDesc) (y : Linger) (len : ℕ) (o : Objects S)
      → size_linger ≤ len
      → get_option lib api fresh d (so_linger (some y)) len o
        ≡ some (
          pos 0,
          so_linger (some (record { onoff = pos d.l_onoff; linger = pos d.l_linger })),
          size_linger,
        )
  unfolding get_option
  linger-get d y len o long =
      let b : ltb len size_linger ≡ false = ground arith in rw (get_option, b) refl

  autoclose-set :
      (d : SctpDesc) (p x len : ℕ) (o : Objects S)
      → d.socket_ptr ≡ some p
      → size_int ≤ len
      → set_option lib api fresh new d (autoclose (some x)) len o
        ≡ some (d, set_auto_close p (1000000 * x % 2 ^ 64) o, errno_return (pos 0))
  unfolding set_option set_autoclose
  autoclose-set d p x len o at long =
      let b : ltb len size_int ≡ false = ground arith in rw (set_option, b, set_autoclose, at) refl

  autoclose-get :
      (d : SctpDesc) (p x y len : ℕ) (o : Objects S)
      → d.socket_ptr ≡ some p
      → x < 0x1_0000_0000
      → size_int ≤ len
      → get_option lib api fresh d
          (autoclose (some y))
          len
          (set_auto_close p (1000000 * x % 2 ^ 64) o)
        ≡ some (pos 0, autoclose (some x), size_int)
  unfolding get_option get_autoclose set_auto_close put_settings
  autoclose-get d p x y len o at small long =
      let b : ltb len size_int ≡ false = ground arith in
      let here : (p == p) ≡ true = ground arith in
      let seconds : 1000000 * x % 2 ^ 64 / 1000000 % 0x1_0000_0000 ≡ x = omega arith in
      rw (get_option, b, get_autoclose, at, here)
        (ap (λ z. some (pos 0, autoclose (some z), size_int)) seconds)

  initmsg-set :
      (d : SctpDesc) (x : InitMsg) (len : ℕ) (o : Objects S)
      → size_init_msg ≤ len
      → set_option lib api fresh new d (initmsg (some x)) len o ≡ some (set_initmsg lib d x o)
  unfolding set_option
  initmsg-set d x len o long =
      let b : ltb len size_init_msg ≡ false = ground arith in rw (set_option, b) refl

  initmsg-get :
      (d : SctpDesc) (x y : InitMsg) (len : ℕ) (o p : Objects S)
      → size_init_msg ≤ len
      → get_option lib api fresh (set_initmsg lib d x o).0 (initmsg (some y)) len p
        ≡ some (pos 0, initmsg (some x), size_init_msg)
  unfolding get_option set_initmsg
  initmsg-get d x y len o p long =
      let b : ltb len size_init_msg ≡ false = ground arith in rw (get_option, b) refl

  through :
      (v y : SockOption) (len size : ℕ) (d e : SctpDesc) (o p : Objects S) (w : World)
      → w.sockets k ≡ sctp d
      → set_option lib api fresh new d v len o ≡ some (e, p, errno_return (pos 0))
      → get_option lib api fresh e y len p ≡ some (pos 0, v, size)
      → Read lib api fresh new k v y len size o w
  unfolding set_slot
  through v y len size d e o p w at set got made made' =
      let here : (k == k) ≡ true = ground arith in
      let u = record w { sockets = set_slot w.sockets k (sctp e) } in
      (
        u,
        p,
        set_through made v len d e o p w at set,
        get_through made' y v len size e p u (rw here refl) got,
        refl,
      )

-- On an SCTP descriptor, SO_LINGER with l_onoff 0 or 1 and l_linger not negative, SCTP_INITMSG, and, where
-- it has a socket, SCTP_AUTOCLOSE with any number of 32 bits are read back as they were set, each where
-- the length is enough for it. Both calls return 0 and leave errno alone, and the one that reads
-- changes no descriptor.
pub ext_getsockopt-set :
    {S : Type 0} (lib : SctpLib S) (api : AddressApi) (fresh : PathStatus) (new : ℕ → StreamTimeout)
    (k n m x len len' len'' y : ℕ) (i j : InitMsg) (l : Linger) (d : SctpDesc) (o : Objects S)
    (w : World)
    → get_socket (pos k) ≡ some k
    → w.sockets k ≡ sctp d
    → n ≤ 1
    → x < 0x1_0000_0000
    → size_linger ≤ len
    → size_init_msg ≤ len'
    → size_int ≤ len''
    → Read lib api fresh new k
        (so_linger (some (record { onoff = pos n; linger = pos m })))
        (so_linger (some l))
        len
        size_linger
        o
        w
      × Read lib api fresh new k (initmsg (some i)) (initmsg (some j)) len' size_init_msg o w
      × ((d.socket_ptr ≡ none)
          ⊎ Read lib api fresh new k (autoclose (some x)) (autoclose (some y)) len'' size_int o w)
unfolding set_initmsg
ext_getsockopt-set lib api fresh new k n m x len len' len'' y i j l d o w slot at small bits long
      long' long'' =
    (
      through lib api fresh new k slot _ _ len size_linger d _ o o w at
          (linger-set lib api fresh new k slot d n m len o small long)
          (linger-get lib api fresh new k slot _ l len o long),
      through lib api fresh new k slot _ _ len' size_init_msg d _ o _ w at
          (initmsg-set lib api fresh new k slot d i len' o long')
          (initmsg-get lib api fresh new k slot d i j len' o _ long'),
      (elim (Option-cases d.socket_ptr) [
        | inl none_there ↦ inl none_there
        | inr (p, socket) ↦ inr (
            through lib api fresh new k slot _ _ len'' size_int d _ o _ w at
              (autoclose-set lib api fresh new k slot d p x len'' o socket long'')
              (autoclose-get lib api fresh new k slot d p x y len'' o socket bits long''))
      ]),
    )
