-- ===== src/Options/RoundTrip.antt =====
-- What the options write is what they read (socketapi/sctpsocketwrapper.cc, sctpassociation.cc).
use socketapi.Prelude.{
  ℕ, ◌≡◌, refl, sym, ap, ◌∙◌, subst, ◌⊎◌, inl, inr, Bool, true, false, ◌==◌, Option, none, some,
  if◌then◌else◌, Bool-cases, arith,
}
use socketapi.Strings.Decimal.{pos, negsuc, neg}
use socketapi.Association.{Association}
use socketapi.Descriptors.{SctpDesc}
use socketapi.Options.{AssocStatus, SctpLib, Objects, put_object}
use socketapi.Options.Methods.{put_lib, get_assoc_status, set_assoc_status, set_socket_status}
use socketapi.Options.Access.{
  Target, by_association, by_socket, nowhere, target, id_of_target, params_of, get_assoc_params,
  change_params, set_assoc_params, result_or,
}

-- The parameters that a write to sctplib sets are equal.
pub record Settable (p q : AssocStatus) : Type 0 where
  pub same_rto_initial : p.rto_initial ≡ q.rto_initial
  pub same_rto_min : p.rto_min ≡ q.rto_min
  pub same_rto_max : p.rto_max ≡ q.rto_max
  pub same_max_retransmits : p.max_retransmits ≡ q.max_retransmits
  pub same_delay : p.delay ≡ q.delay
  pub same_max_send_queue : p.max_send_queue ≡ q.max_send_queue
  pub same_max_recv_queue : p.max_recv_queue ≡ q.max_recv_queue

-- sctplib keeps what sctp_setAssocStatus sets where it reports no error.
unfoldable pub Remembers : {S : Type 0} → SctpLib S → Type 0
Remembers {S} lib =
    (s : S) (id : ℕ) (p : AssocStatus)
    → ((lib.set_status s id p).1 ≡ false)
      ⊎ ((q : AssocStatus) × (lib.get_status (lib.set_status s id p).0 id ≡ some q) × Settable p q)

module _ {S : Type 0} (lib : SctpLib S) (remembers : Remembers lib) where
  unfoldable Kept : Target → ℕ → AssocStatus → Objects S → Objects S → Type 0
  Kept t id p o v =
      (q : AssocStatus) × (params_of lib t id v ≡ some q)
      × Settable p q
      × (id_of_target lib t id v ≡ id_of_target lib t id o)

  late_of : ℕ → AssocStatus → Objects S → AssocStatus
  late_of a p o = record p { rto_max = (o.associations a).init_timeout }

  set-late :
      (a : ℕ) (p : AssocStatus) (o : Objects S)
      → (o.associations a).rto_max_is_init_timeout ≡ true
      → set_assoc_status lib a p o
        ≡ put_lib
            (put_object a (record (o.associations a) { rto_max = p.rto_max }) o)
            (lib.set_status o.lib_state (o.associations a).assoc_id (late_of a p o))
  unfolding set_assoc_status late_of
  set-late a p o e = rw e refl

  set-direct :
      (a : ℕ) (p : AssocStatus) (o : Objects S)
      → (o.associations a).rto_max_is_init_timeout ≡ false
      → set_assoc_status lib a p o
        ≡ put_lib o (lib.set_status o.lib_state (o.associations a).assoc_id p)
  unfolding set_assoc_status
  set-direct a p o e = rw e refl

  -- getAssocStatus of the object `x`.
  status_for : Association → S → Option AssocStatus
  status_for x t = elim (lib.get_status t x.assoc_id) [
    | none ↦ none
    | some p ↦ some (if x.rto_max_is_init_timeout then record p { rto_max = x.rto_max } else p)
  ]

  late-kept :
      (a id : ℕ) (p : AssocStatus) (o : Objects S)
      → (o.associations a).rto_max_is_init_timeout ≡ true
      → (lib.set_status o.lib_state (o.associations a).assoc_id (late_of a p o)).1 ≡ true
      → Kept
          (by_association a)
          id
          p
          o
          (put_lib
            (put_object a (record (o.associations a) { rto_max = p.rto_max }) o)
            (lib.set_status o.lib_state (o.associations a).assoc_id (late_of a p o))).0
  unfolding Remembers Kept get_assoc_status put_object late_of status_for
  late-kept a id p o e ok =
      let x = record (o.associations a) { rto_max = p.rto_max } in
      let here : (a == a) ≡ true = ground arith in
      let read : (if a == a then x else o.associations a) ≡ x = rw here refl in
      elim (remembers o.lib_state (o.associations a).assoc_id (late_of a p o)) [
        | inl bad ↦ absurd (ground (arith, bad, ok))
        | inr (q, got, same) ↦ (
          record q { rto_max = p.rto_max },
          subst
              (λ z.
                status_for z
                  (lib.set_status o.lib_state (o.associations a).assoc_id (late_of a p o)).0
                ≡ some (record q { rto_max = p.rto_max }))
              (sym read) (rw (status_for, got, e) refl),
          record {
            same_rto_initial = same.same_rto_initial;
            same_rto_min = same.same_rto_min;
            same_rto_max = refl;
            same_max_retransmits = same.same_max_retransmits;
            same_delay = same.same_delay;
            same_max_send_queue = same.same_max_send_queue;
            same_max_recv_queue = same.same_max_recv_queue;
          },
          ap (λ z. z.assoc_id) read,
        )
      ]

  direct-kept :
      (a id : ℕ) (p : AssocStatus) (o : Objects S)
      → (o.associations a).rto_max_is_init_timeout ≡ false
      → (lib.set_status o.lib_state (o.associations a).assoc_id p).1 ≡ true
      → Kept
          (by_association a)
          id
          p
          o
          (put_lib o (lib.set_status o.lib_state (o.associations a).assoc_id p)).0
  unfolding Remembers Kept get_assoc_status
  direct-kept a id p o e ok = elim (remembers o.lib_state (o.associations a).assoc_id p) [
    | inl bad ↦ absurd (ground (arith, bad, ok))
    | inr (q, got, same) ↦ (q, rw (get_assoc_status, got, e) refl, same, refl)
  ]

  association-kept :
      (a id : ℕ) (p : AssocStatus) (o : Objects S)
      → (set_assoc_status lib a p o).1 ≡ true
      → Kept (by_association a) id p o (set_assoc_status lib a p o).0
  association-kept a id p o ok = elim (Bool-cases (o.associations a).rto_max_is_init_timeout) [
    | inl e ↦
        let s = set-late a p o e in
        subst (λ r. Kept (by_association a) id p o r.0) (sym s)
          (late-kept a id p o e (sym (ap (λ r. r.1) s) ∙ ok))
    | inr e ↦
        let s = set-direct a p o e in
        subst (λ r. Kept (by_association a) id p o r.0) (sym s)
          (direct-kept a id p o e (sym (ap (λ r. r.1) s) ∙ ok))
  ]

  change-kept :
      (t : Target) (id : ℕ) (p : AssocStatus) (o : Objects S)
      → (change_params lib t id p o).1 ≡ true
      → Kept t id p o (change_params lib t id p o).0
  unfolding Kept set_socket_status Remembers
  change-kept (by_association a) id p o ok = association-kept a id p o ok
  change-kept (by_socket a) id p o ok = elim (remembers o.lib_state id p) [
    | inl bad ↦ absurd (ground (arith, bad, ok))
    | inr (q, got, same) ↦ (q, got, same, refl)
  ]
  change-kept nowhere id p o ok = absurd (ground (arith, ok))

  result_or-true : (n : ℕ) (b : Bool) → result_or (negsuc n) b ≡ pos 0 → b ≡ true
  result_or-true error true e = refl
  result_or-true error false e = absurd (ground (arith, e))

  -- Where setAssocParams returns 0, getAssocParams returns the number of the association and the
  -- parameters that were set: the three of the RTO, the retransmissions, the delay and the two buffer
  -- sizes are the new ones, also while the timeout of the INIT stands in for the maximum of the RTO
  -- in sctplib. It is supposed that sctplib keeps what a write without an error sets.
  pub get_assoc_params-set :
      (d : SctpDesc) (id : ℕ) (p : AssocStatus) (o : Objects S)
      → (set_assoc_params lib d id p o).1 ≡ pos 0
      → (q : AssocStatus) × (get_assoc_params lib d id (set_assoc_params lib d id p o).0
          ≡ some (id_of_target lib (target d) id o, q))
        × Settable p q
  unfolding get_assoc_params set_assoc_params Kept neg
  get_assoc_params-set d id p o ok =
      let done = result_or-true 0 (change_params lib (target d) id p o).1 ok in
      let (q, got, same, number) = change-kept (target d) id p o done in
      (q, rw (get_assoc_params, set_assoc_params, got, number) refl, same)
