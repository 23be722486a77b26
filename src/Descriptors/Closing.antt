-- ===== src/Descriptors/Closing.antt =====
-- mayRemoveSocket, ext_close and ext_pipe of socketapi/sctpsocketwrapper.cc.
use socketapi.Prelude.{
  ℕ, zero, suc, ◌+◌, Bool, false, not, ◌&&◌, ◌||◌, Option, none, some, List, [], ◌∷◌, ◌++◌, ◌==◌,
  ltb, if◌then◌else◌,
}
use socketapi.Strings.Decimal.{ℤ, pos, negsuc, neg}
use socketapi.Descriptors.{
  max_sockets, SctpDesc, Descriptor, invalid, system, sctp, Table, Effect, close_fd,
  shutdown_association, abort_association, delete_association, delete_socket, unbind, World,
  note_effect, set_slot, errno_result, get_socket, is_invalid, set_socket, failed,
}

-- Does the descriptor hold the SCTP socket object at `p`?
unfoldable pub holds : Descriptor → ℕ → Bool
holds invalid p = false
holds (system fd) p = false
holds (sctp d) p = elim (d.socket_ptr) [ none ↦ false | some o ↦ o == p ]

-- Does the slot `i`, which is not the slot `k`, hold it?
unfoldable pub refers : Table → ℕ → ℕ → ℕ → Bool
unfolding holds
refers t k p i = ltb i max_sockets && not (i == k) && holds (t i) p

-- The loop of mayRemoveSocket over `n` slots from `i`.
unfoldable pub referenced : Table → ℕ → ℕ → ℕ → ℕ → Bool
referenced t k p i zero = false
referenced t k p i (suc n) = refers t k p i || referenced t k p (i + 1) n

unfoldable pub may_remove_socket : Table → ℕ → ℕ → Bool
may_remove_socket t k p = not (referenced t k p 1 max_sockets)

-- What is done to the association and to the socket object of a descriptor that is closed.
unfoldable pub close_association : SctpDesc → List Effect
close_association d = elim (d.association_ptr) [
  | none ↦ []
  | some a ↦
      (if d.l_onoff == 1
        then if ltb 0 d.l_linger then shutdown_association a ∷ [] else abort_association a ∷ []
        else [])
      ++ delete_association a ∷ []
]

unfoldable pub close_socket : Table → ℕ → SctpDesc → List Effect
close_socket t k d = elim (d.socket_ptr) [
  | none ↦ []
  | some p ↦
      if may_remove_socket t k p
      then (if d.l_onoff == 1 then unbind p (not (ltb 0 d.l_linger)) ∷ [] else [])
        ++ delete_socket p ∷ []
      else []
]

abbrev pub close_effects : Table → ℕ → Descriptor → List Effect
close_effects t k invalid = []
close_effects t k (system fd) = close_fd fd ∷ []
close_effects t k (sctp d) = close_association d ++ close_socket t k d

unfoldable pub close_slot : ℕ → World → World × ℤ
unfolding set_slot
close_slot k w = if is_invalid (w.sockets k) then errno_result w (neg 6) else (
  record w {
    sockets = set_slot w.sockets k invalid;
    effects = w.effects ++ close_effects w.sockets k (w.sockets k);
  },
  pos 0,
)

unfoldable pub ext_close : ℤ → World → World × ℤ
ext_close id w = elim (get_socket id) [ none ↦ errno_result w (neg 9) | some k ↦ close_slot k w ]

-- The two descriptors of a pipe, put in the table one by one.
unfoldable pub pipe_second : ℕ → ℤ → ℕ → World → World × ℤ × ℤ × ℤ
pipe_second dtable first out w =
    let (v, second) = set_socket dtable (system out) w in
    let (u, r) = errno_result (note_effect (close_fd out) (ext_close first v).0) second in
    if failed second then (u, r, first, second) else (v, pos 0, first, second)

-- ext_pipe, given what pipe stored, or `none` for its failure: the world, the result and the two
-- elements of `fds`, which were `f0` and `f1`.
unfoldable pub ext_pipe : ℕ → Option (ℕ × ℕ) → ℤ → ℤ → World → World × ℤ × ℤ × ℤ
ext_pipe dtable none f0 f1 w = (w, negsuc 0, f0, f1)
ext_pipe dtable (some (in_fd, out)) f0 f1 w =
    let (v, first) = set_socket dtable (system in_fd) w in
    let closed = note_effect (close_fd out) (note_effect (close_fd in_fd) v) in
    let (u, r) = errno_result closed first in
    let second = pipe_second dtable first out v in
    if failed first then (u, r, first, f1) else second
