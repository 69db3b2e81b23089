-- ===== src/Attribution/Trace/Quiet.antt =====
-- What the reporting part of `_process_trace` of attribute.py leaves alone: it adds to the graph, and
-- touches no descriptor, context, job or row.
use causpan.Prelude.{
  ℕ, ◌≡◌, refl, ◌∙◌, Option, none, some, List, [], ◌∷◌, Bool-cases, inl, inr, nat_eq, string_eq,
  pair_eq, member, sorted, arith,
}
use causpan.Attribution.Types.{Event, Connection, Row, Setup}
use causpan.Attribution.Trace.{
  Attributor, show_connection, show_owners, show_effect, show_socket, show_row, is_socket_io,
}

pub record IsQuiet (a b : Attributor) : Type 0 where
  pub descriptors : b.descriptors ≡ a.descriptors
  pub tagged : b.tagged ≡ a.tagged
  pub seen : b.seen ≡ a.seen
  pub state : b.runtime.state ≡ a.runtime.state
  pub inherited : b.runtime.inherited ≡ a.runtime.inherited
  pub ipc_jobs : b.runtime.ipc_jobs ≡ a.runtime.ipc_jobs
  pub ipc_active : b.runtime.ipc_active ≡ a.runtime.ipc_active
  pub errors : b.runtime.errors ≡ a.runtime.errors

pub IsQuiet-refl : (a : Attributor) → IsQuiet a a
IsQuiet-refl a = record {
  descriptors = refl;
  tagged = refl;
  seen = refl;
  state = refl;
  inherited = refl;
  ipc_jobs = refl;
  ipc_active = refl;
  errors = refl;
}

pub IsQuiet-trans : {a b c : Attributor} → IsQuiet a b → IsQuiet b c → IsQuiet a c
IsQuiet-trans p q = record {
  descriptors = q.descriptors ∙ p.descriptors;
  tagged = q.tagged ∙ p.tagged;
  seen = q.seen ∙ p.seen;
  state = q.state ∙ p.state;
  inherited = q.inherited ∙ p.inherited;
  ipc_jobs = q.ipc_jobs ∙ p.ipc_jobs;
  ipc_active = q.ipc_active ∙ p.ipc_active;
  errors = q.errors ∙ p.errors;
}

module _ (setup : Setup) (e : Event) where
  show_connection-IsQuiet :
      (fd : Option ℕ) (g : ℕ) (c : Connection) (a : Attributor)
      → IsQuiet a (show_connection e fd g c a)
  unfolding show_connection
  show_connection-IsQuiet fd g c a = ground arith

  show_owners-IsQuiet :
      (g : ℕ) (c : Connection) (parents : List ℕ) (a : Attributor)
      → IsQuiet a (show_owners setup e g c parents a)
  unfolding show_owners
  show_owners-IsQuiet g c [] a = IsQuiet-refl a
  show_owners-IsQuiet g c (parent ∷ parents) a =
      elim (Bool-cases (member (parent, g) a.socket_parent_edges)) [
        | inl p ↦ rw (p, show_owners) (show_owners-IsQuiet g c parents a)
        | inr p ↦
            let rest = show_owners-IsQuiet g c parents _ in
            rw (p, show_owners)
              (record {
                descriptors = rest.descriptors;
                tagged = rest.tagged;
                seen = rest.seen;
                state = rest.state;
                inherited = rest.inherited;
                ipc_jobs = rest.ipc_jobs;
                ipc_active = rest.ipc_active;
                errors = rest.errors;
              })
      ]

  show_effect-IsQuiet : (c : Connection) (a : Attributor) → IsQuiet a (show_effect e c a)
  unfolding show_effect
  show_effect-IsQuiet c a = elim (Bool-cases (is_socket_io e.syscall)) [
    | inl p ↦
        rw (p, show_effect)
          (record {
            descriptors = refl;
            tagged = refl;
            seen = refl;
            state = refl;
            inherited = refl;
            ipc_jobs = refl;
            ipc_active = refl;
            errors = refl;
          })
    | inr p ↦ rw (p, show_effect) (IsQuiet-refl a)
  ]

  pub show_socket-IsQuiet :
      (fd socket : Option ℕ) (c : Option Connection) (a : Attributor)
      → IsQuiet a (show_socket setup e fd socket c a)
  unfolding show_socket
  show_socket-IsQuiet fd (some g) (some c) a = IsQuiet-trans (show_connection-IsQuiet fd g c a) (
      IsQuiet-trans (show_owners-IsQuiet g c (sorted c.requests) (show_connection e fd g c a)) (
        show_effect-IsQuiet c
          (show_owners setup e g c (sorted c.requests) (show_connection e fd g c a))))
  show_socket-IsQuiet fd none c a = IsQuiet-refl a
  show_socket-IsQuiet fd (some g) none a = IsQuiet-refl a

  pub show_row-IsQuiet :
      (request : ℕ) (c : Option Connection) (row : Row) (a : Attributor)
      → IsQuiet a (show_row setup e request c row a)
  unfolding show_row
  show_row-IsQuiet request c row a = ground arith
