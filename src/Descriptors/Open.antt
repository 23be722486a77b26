-- ===== src/Descriptors/Open.antt =====
-- What ext_open, ext_creat and ext_socket leave behind.
use socketapi.Prelude.{
  ℕ, ◌<◌, ◌≡◌, ◌≢◌, refl, ◌⊎◌, inl, inr, Bool, true, false, Option, some, List, [], ◌∷◌, ◌++◌,
  ==-ne,
}
use socketapi.Strings.Decimal.{ℤ, pos, negsuc, neg}
use socketapi.Descriptors.{
  Descriptor, system, sctp, is_invalid, set_slot, World, max_sockets, Effect, close_fd, new_socket,
  set_notification_flags, delete_socket, ext_open, ext_creat, ext_socket, ext_socket_system,
  ext_socket_sctp, new_desc, errno_result,
}
use socketapi.Descriptors.Slots.{set_socket-cases}

-- The world `v` with the result `r` is `w` with the descriptor in a free slot.
abbrev pub Stored : World → Descriptor → World → ℤ → Type 0
Stored w d v r =
    (i : ℕ) × (i < max_sockets)
    × (is_invalid (w.sockets i) ≡ true)
    × (v ≡ record w { sockets = set_slot w.sockets i d })
    × (r ≡ pos i)

-- Of the file descriptor that open or creat returned, the result is a free slot which now holds
-- it; or the call fails with EMFILE, the table is as before and the file descriptor is closed.
pub ext_open-Outcome :
    (dtable fd : ℕ) (w : World)
    → (Stored w (system fd) (ext_open dtable (pos fd) w).0 (ext_open dtable (pos fd) w).1
        ⊎ (ext_open dtable (pos fd) w
            ≡ (record w { effects = w.effects ++ close_fd fd ∷ []; errno = 24 }, negsuc 0)))
      × (ext_creat dtable (pos fd) w ≡ ext_open dtable (pos fd) w)
unfolding ext_open ext_creat errno_result neg
ext_open-Outcome dtable fd w = elim (set_socket-cases dtable (system fd) w) [
  | inl e ↦ rw e (inr refl, refl)
  | inr (i, lt, free, e) ↦ rw e (inl (i, lt, free, refl, refl), refl)
]

-- Of the socket that the system made for a protocol other than SCTP, the result is a free slot
-- which now holds it; or the call fails with EMFILE, and the socket is neither stored nor closed.
pub ext_socket-Outcome :
    (dtable fd domain type protocol : ℕ) (available : Bool) (new_ptr : Option ℕ) (w : World)
    → protocol ≢ 132
    → let (v, r) = ext_socket dtable available new_ptr (pos fd) domain type protocol w in
      Stored w (system fd) v r ⊎ ((v ≡ record w { errno = 24 }) × (r ≡ negsuc 0))
unfolding ext_socket ext_socket_system errno_result neg
ext_socket-Outcome dtable fd domain type protocol available new_ptr w ne =
    elim (set_socket-cases dtable (system fd) w) [
      | inl e ↦ rw (==-ne protocol 132 ne) (rw e (inr (refl, refl)))
      | inr (i, lt, free, e) ↦ rw (==-ne protocol 132 ne) (rw e (inl (i, lt, free, refl, refl)))
    ]

-- Where open, creat or socket returns -1, the wrapper sets errno to 1, whatever errno was.
pub failure_sets_errno :
    (dtable domain type protocol e : ℕ) (available : Bool) (new_ptr : Option ℕ) (w : World)
    → protocol ≢ 132
    → (ext_open dtable (negsuc 0) (record w { errno = e }) ≡ (record w { errno = 1 }, negsuc 0))
      × (ext_creat dtable (negsuc 0) (record w { errno = e }) ≡ (record w { errno = 1 }, negsuc 0))
      × (ext_socket dtable available new_ptr
            (negsuc 0)
            domain
            type
            protocol
            (record w { errno = e })
          ≡ (record w { errno = 1 }, negsuc 0))
unfolding ext_open ext_creat ext_socket ext_socket_system errno_result neg
failure_sets_errno dtable domain type protocol e available new_ptr w ne =
    (refl, refl, rw (==-ne protocol 132 ne) refl)

abbrev made_effects : ℕ → ℕ → Bool → ℕ → List Effect
made_effects domain p true flags = new_socket p domain flags ∷ []
made_effects domain p false flags = new_socket p domain flags ∷ set_notification_flags p 1 ∷ []

-- Of the SCTP socket object that is made for a one-to-one socket, the result is a free slot which
-- now holds it; or the call fails with EMFILE, and the object is deleted.
pub ext_socket-Sctp :
    (dtable domain p : ℕ) (made : ℤ) (w : World)
    → let (v, r) = ext_socket dtable true (some p) made domain 1 132 w in
      let born = record w { effects = w.effects ++ new_socket p domain 0 ∷ [] } in
      Stored born (sctp (new_desc domain 1 true p)) v r
      ⊎ ((v ≡ record born { effects = born.effects ++ delete_socket p ∷ []; errno = 24 })
          × (r ≡ negsuc 0))
unfolding ext_socket ext_socket_sctp errno_result neg
ext_socket-Sctp dtable domain p made w =
    let born = record w { effects = w.effects ++ new_socket p domain 0 ∷ [] } in
    elim (set_socket-cases dtable (sctp (new_desc domain 1 true p)) born) [
      | inl e ↦ rw e (inr (refl, refl))
      | inr (i, lt, free, e) ↦ rw e (inl (i, lt, free, refl, refl))
    ]
