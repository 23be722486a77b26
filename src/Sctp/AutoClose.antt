-- ===== src/Sctp/AutoClose.antt =====
-- Which associations checkAutoClose (socketapi/sctpsocket.cc) removes.
use socketapi.Prelude.{
  ℕ, ◌≡◌, ◌≢◌, refl, ap, Bool, true, false, ◌&&◌, ◌||◌, List, [], ◌∷◌, ◌++◌, All, Option, none,
  some, ◌==◌, if◌then◌else◌,
}
use socketapi.Association.{Association}
use socketapi.Sctp.{Socket, Master, find_association}
use socketapi.Sctp.Lifetime.{is_abort, Decision, keep, remove, do_abort, do_shutdown, decide_close}

abbrev pub is_remove : Decision → Bool
is_remove remove = true
is_remove keep = false
is_remove do_abort = false
is_remove do_shutdown = false

-- The association is not in use, and it is over.
abbrev pub removes : Option Association → Bool
removes none = false
removes (some a) = a.use_count == 0 && (a.shutdown_complete || a.lost)

-- The numbers of the associations that are left.
unfoldable pub survivors : List Association → List ℕ → List ℕ
survivors xs [] = []
survivors xs (id ∷ ids) =
    let rest = survivors xs ids in if removes (find_association id xs) then rest else id ∷ rest

abbrev pub Distinct : List ℕ → Type 0
Distinct [] = Unit
Distinct (id ∷ ids) = All (λ k. k ≢ id) ids × Distinct ids

-- The association is to be aborted.
abbrev pub is_due : ℕ → ℕ → Option Association → Bool
is_due now timeout none = false
is_due now timeout (some a) = is_abort (decide_close now timeout a)

abbrev pub Calm : ℕ → ℕ → List Association → List ℕ → Type 0
Calm now timeout xs = All (λ id. is_due now timeout (find_association id xs) ≡ false)

abbrev pub Known : List Association → List ℕ → Type 0
Known xs = All (λ id. (a : Association) × (find_association id xs ≡ some a))

-- What one round leaves: the other associations, and the numbers around `id`.
abbrev Step : ℕ → List ℕ → List ℕ → Bool → Socket → Socket → Type 0
Step id pre ids removed s t =
    (t.auto_close_timeout ≡ s.auto_close_timeout)
    × ((k : ℕ) → k ≢ id → find_association k t.associations ≡ find_association k s.associations)
    × (t.connectionless ≡ (if removed then pre ++ ids else pre ++ id ∷ ids))

append-[] : (xs : List ℕ) → xs ++ [] ≡ xs
append-[] [] = refl
append-[] (x ∷ xs) = ap (λ l. x ∷ l) (append-[] xs)

-- No number of `ids` is in `pre`.
abbrev Apart : List ℕ → List ℕ → Type 0
Apart pre = All (λ id. All (λ k. k ≢ id) pre)

-- The result of the loop behind `pre`.
abbrev Left : List Association → List ℕ → List ℕ → Option (Socket × Master × Bool) → Type 0
Left xs pre ids r =
    (t : Socket) × (n : Master) × (r ≡ some (t, n, false))
    × (t.connectionless ≡ pre ++ survivors xs ids)
