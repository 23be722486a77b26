-- ===== src/Options/Search.antt =====
-- Which path an address stands for (socketapi/sctpsocket.cc, getPathIndexForAddress), and that the
-- primary path is only set to a path with the address.
use socketapi.Prelude.{
  ℕ, zero, suc, ◌+◌, ◌<◌, ◌≤◌, ◌≡◌, refl, sym, ap, ◌∙◌, subst, ◌⊎◌, inl, inr, Bool, true, false,
  ◌==◌, Option, none, some, Bytes, Bool-cases, Option-cases, arith,
}
use mathlib.Core.Option.{some-injective}
use socketapi.Strings.{eq_text}
use socketapi.Addresses.{SocketAddress}
use socketapi.Options.{AssocStatus, PathStatus, SctpLib, AddressApi}
use socketapi.Options.Paths.{path_loop, path_index, set_found, set_primary}

module _ (status : ℕ → Option PathStatus) (ids : ℕ → ℕ) (name : Bytes) where
  -- Behind the ID at `j` is a path with the name, or one with another.
  abbrev pub Named : Bool → ℕ → Type 0
  Named b j =
      (p : PathStatus) × (status (ids j) ≡ some p) × (eq_text (some name) (some p.destination) ≡ b)

  -- All paths from the `i`-th on in front of the `j`-th have another name.
  abbrev pub OthersTo : ℕ → ℕ → Type 0
  OthersTo i j = (m : ℕ) → ((m < i) ⊎ (j ≤ m)) ⊎ Named false m

  -- The first path with the name from the `i`-th on; no path with the name in front of the first ID
  -- without a path; or `n` paths with other names.
  abbrev pub Searched : ℕ → ℕ → Option (Option ℕ) → Type 0
  Searched n i r =
      ((j : ℕ) × (r ≡ some (some (ids j))) × (i ≤ j) × (j < i + n) × Named true j × OthersTo i j)
      ⊎ ((j : ℕ) × (r ≡ some none) × (i ≤ j) × (j < i + n) × (status (ids j) ≡ none) × OthersTo i j)
      ⊎ ((r ≡ none) × OthersTo i (i + n))

  one_more : (i j : ℕ) → Named false i → OthersTo (i + 1) j → OthersTo i j
  one_more i j here others m = elim (others m) [
    | inl out ↦ elim (Bool-cases (m == i)) [
      | inl e ↦ inr (subst (Named false) (ground arith) here)
      | inr e ↦ inl (ground (arith, out, e))
    ]
    | inr named ↦ inr named
  ]

  none_yet : (i : ℕ) → OthersTo i i
  none_yet i m = inl (omega arith)

  Searched-later :
      (n i : ℕ) (r : Option (Option ℕ))
      → Named false i
      → Searched n (i + 1) r
      → Searched (suc n) i r
  Searched-later n i r here (inl (j, e, low, high, named, others)) =
      inl (j, e, omega arith, omega arith, named, one_more i j here others)
  Searched-later n i r here (inr (inl (j, e, low, high, free, others))) =
      inr (inl (j, e, omega arith, omega arith, free, one_more i j here others))
  Searched-later n i r here (inr (inr (e, others))) =
      let end : i + 1 + n ≡ i + suc n = omega arith in
      inr (inr (e, subst (OthersTo i) end (one_more i (i + 1 + n) here others)))

  path_loop-Searched : (n i : ℕ) → Searched n i (path_loop status ids name n i)
  unfolding path_loop
  path_loop-Searched zero i = inr (inr (refl, λ m. inl (omega arith)))
  path_loop-Searched (suc n) i = elim (Option-cases (status (ids i))) [
    | inl e ↦ inr (inl (i, rw (path_loop, e) refl, omega arith, omega arith, e, none_yet i))
    | inr (p, e) ↦ elim (Bool-cases (eq_text (some name) (some p.destination))) [
      | inl same ↦
          inl (i, rw (path_loop, e, same) refl, omega arith, omega arith, (p, e, same), none_yet i)
      | inr differs ↦ subst (Searched (suc n) i) (rw (path_loop, e, differs) refl) (
          Searched-later n i (path_loop status ids name n (i + 1)) (p, e, differs)
            (path_loop-Searched n (i + 1)))
    ]
  ]

-- Where the status of the association can be read, getPathIndexForAddress of an address gives the ID
-- of the first path whose text is that of the address; or -1, where an ID without a path comes
-- before such a path; or it goes on behind the first `rounds` paths, all of which have other texts.
pub path_index-Searched :
    {S : Type 0} (lib : SctpLib S) (api : AddressApi) (id : ℕ) (a : SocketAddress) (s : S)
    (x : AssocStatus)
    → lib.get_status s id ≡ some x
    → Searched
        (lib.path_status s id)
        x.path_ids
        (api.text_of a)
        api.rounds
        0
        (path_index lib api id (some a) s)
unfolding path_index
path_index-Searched lib api id a s x e =
    subst (Searched (lib.path_status s id) x.path_ids (api.text_of a) api.rounds 0)
      (rw (path_index, e) refl)
      (path_loop-Searched (lib.path_status s id) x.path_ids (api.text_of a) api.rounds 0)

-- A primary address that is set is that of a path of the association which has the text of the
-- address: sctplib was asked for that path, and what it did is the result.
pub set_primary-Named :
    {S : Type 0} (lib : SctpLib S) (api : AddressApi) (id : ℕ) (a : SocketAddress) (s t : S)
    → set_primary lib api id a s ≡ some (t, true)
    → (i : ℕ) × (p : PathStatus) × (lib.path_status s id i ≡ some p)
      × (eq_text (some (api.text_of a)) (some p.destination) ≡ true)
      × (lib.change_primary s id i ≡ (t, true))
unfolding set_primary path_index
set_primary-Named lib api id a s t done = elim (Option-cases (lib.get_status s id)) [
  | inl e ↦
      let missing : path_index lib api id (some a) s ≡ some none = rw (path_index, e) refl in
      absurd (ground (arith, sym (ap (set_found lib id s) missing) ∙ done))
  | inr (x, e) ↦
      let r = path_index lib api id (some a) s in
      elim (path_index-Searched lib api id a s x e) [
        | inl (j, found, low, high, (p, there, named), others) ↦ (
          x.path_ids j,
          p,
          there,
          named,
          some-injective _ _ (sym (ap (set_found lib id s) found) ∙ done),
        )
        | inr (inl (j, found, low, high, free, others)) ↦
            absurd (ground (arith, sym (ap (set_found lib id s) found) ∙ done))
        | inr (inr (found, others)) ↦
            absurd (ground (arith, sym (ap (set_found lib id s) found) ∙ done))
      ]
]
