-- ===== src/Options/Calls.antt =====
-- An option that is written and then read (socketapi/sctpsocketwrapper.cc): the RTO of an
-- association, and the settings that the descriptor and the socket hold themselves.
use socketapi.Prelude.{ℕ, ◌≡◌, refl, sym, ap, ap₂, ◌∙◌, Option, none, some, arith}
use socketapi.Strings.Decimal.{pos, neg}
use socketapi.Descriptors.{SctpDesc}
use socketapi.Options.{AssocStatus, SctpLib, Objects}
use socketapi.Options.Access.{
  Target, by_association, by_socket, nowhere, target, id_of_target, params_of, get_assoc_params,
  set_assoc_params, with_number,
}
use socketapi.Options.Values.{RtoInfo, rtoinfo, size_rto_info}
use socketapi.Options.Read.{read_rto, get_rto_info}
use socketapi.Options.Write.{change_found, set_rto_info, or_old}
use socketapi.Options.RoundTrip.{Settable, Remembers, get_assoc_params-set}

module _ {S : Type 0} (lib : SctpLib S) where
  -- The number that a call gives back stands for the same association.
  same_target :
      (t : Target) (id : ℕ) (o v : Objects S)
      → (params_of lib t (id_of_target lib t id o) v ≡ params_of lib t id v)
        × (id_of_target lib t (id_of_target lib t id o) v ≡ id_of_target lib t id v)
        × (id_of_target lib t (id_of_target lib t id o) o ≡ id_of_target lib t id o)
  same_target (by_association a) id o v = (refl, refl, refl)
  same_target (by_socket p) id o v = (refl, refl, refl)
  same_target nowhere id o v = (refl, refl, refl)

  same_params :
      (d : SctpDesc) (id : ℕ) (o v : Objects S)
      → get_assoc_params lib d (id_of_target lib (target d) id o) v ≡ get_assoc_params lib d id v
  unfolding get_assoc_params
  same_params d id o v =
      let (one, two, three) = same_target (target d) id o v in ap₂ with_number two one

  -- A change of the parameters that succeeds has read them, and what is read then is what it wrote.
  changed-get :
      (f : AssocStatus → AssocStatus) (d : SctpDesc) (id : ℕ) (o : Objects S)
      → Remembers lib
      → (r : Option AssocStatus)
      → (change_found lib f d o (with_number (id_of_target lib (target d) id o) r)).1 ≡ pos 0
      → (p q : AssocStatus) × (r ≡ some p)
        × (get_assoc_params lib d id
              (change_found lib f d o (with_number (id_of_target lib (target d) id o) r)).0
            ≡ some (id_of_target lib (target d) id o, q))
        × Settable (f p) q
  unfolding neg
  changed-get f d id o remembers none ok = absurd (ground (arith, ok))
  changed-get f d id o remembers (some p) ok =
      let i = id_of_target lib (target d) id o in
      let (q, got, same) = get_assoc_params-set lib remembers d i (f p) o ok in
      let v = (set_assoc_params lib d i (f p) o).0 in
      (
        p,
        q,
        refl,
        sym (same_params d id o v) ∙ got ∙ ap (λ n. some (n, q)) (same_target (target d) id o v).2,
        same,
      )

  -- Where SCTP_RTOINFO is set with the result 0, reading it with the same struct gives the number of
  -- the association and its three times: each is the one that was set, or, where 0 was set, the one
  -- it was before. It is supposed that sctplib keeps what a write without an error sets.
  pub get_rto_info-set :
      (d : SctpDesc) (x : RtoInfo) (len : ℕ) (o : Objects S)
      → Remembers lib
      → (set_rto_info lib d x o).1 ≡ pos 0
      → (p : AssocStatus) × (params_of lib (target d) x.srto_assoc_id o ≡ some p)
        × (get_rto_info lib d x len (set_rto_info lib d x o).0 ≡ (
          pos 0,
          rtoinfo (
              some (record {
                srto_assoc_id = id_of_target lib (target d) x.srto_assoc_id o;
                srto_initial = or_old x.srto_initial p.rto_initial;
                srto_max = or_old x.srto_max p.rto_max;
                srto_min = or_old x.srto_min p.rto_min;
              })),
          size_rto_info,
        ))
  unfolding set_rto_info get_rto_info get_assoc_params
  get_rto_info-set d x len o remembers ok =
      let (p, q, was, got, same) =
        changed-get _ d x.srto_assoc_id o remembers (params_of lib (target d) x.srto_assoc_id o)
          ok in
      (
        p,
        was,
        ap (read_rto x len) got
            ∙ rw (sym same.same_rto_initial, sym same.same_rto_max, sym same.same_rto_min) refl,
      )
