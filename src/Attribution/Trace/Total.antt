-- ===== src/Attribution/Trace/Total.antt =====
-- The parts of `_process_trace` of attribute.py that look requests up by number find them, on a state
-- whose contexts and connections name mapped requests.
use causpan.Prelude.{
  ℕ, ◌≡◌, refl, inl, inr, subst, Bool-cases, Option-cases, List-cases, some_injective, Option, none,
  some, List, [], ◌∷◌, Dict, get, put, All, sorted, insert_sorted, leb, ltb, length, nat_eq,
  pair_eq, ◌==◌, ◌&&◌, get-put, arith,
}
use causpan.Attribution.Types.{Syscall, Event, Context, Connection, RpcId, Row, Setup}
use causpan.Attribution.Runtime.{Runtime, current_context}
use causpan.Attribution.Ipc.Invariant.{IsConsistent}
use causpan.Attribution.Descriptors.Sound.{IsSound}
use causpan.Attribution.Syscalls.Owned.{HasId, IsSetup, IsKnown, IsOwned}
use causpan.Attribution.Rows.{
  Scope, is_read, request_of, rpc_ids, known_owners, read_scope, candidates, row_of, make_row,
}
use causpan.Attribution.Rows.Fits.{IsClassified}
use causpan.Attribution.Trace.{Attributor, scope_of}

abbrev pub AllKnown : Setup → Dict ℕ Context → Type 0
AllKnown setup d = (t : ℕ) (c : Context) → get t d ≡ some c → IsKnown setup c.request

-- The state of the attributor on a run whose markers name mapped requests.
pub record IsWell (setup : Setup) (a : Attributor) : Type 0 where
  pub sound : IsSound a.descriptors
  pub owned : IsOwned setup a.descriptors.connections
  pub consistent : IsConsistent a.runtime
  pub state_known : AllKnown setup a.runtime.state
  pub inherited_known : AllKnown setup a.runtime.inherited
  pub classified : All IsClassified a.tagged

module _ (P : ℕ → Type 0) where
  All-insert_sorted : (a : ℕ) (s : List ℕ) → P a → All P s → All P (insert_sorted a s)
  unfolding insert_sorted
  All-insert_sorted a [] p h = (p, tt)
  All-insert_sorted a (x ∷ s) p h = elim (Bool-cases (leb a x)) [
    | inl q ↦ rw (q, insert_sorted) (p, (h.0, h.1))
    | inr q ↦ rw (q, insert_sorted) (h.0, All-insert_sorted a s p h.1)
  ]

  pub All-sorted : (s : List ℕ) → All P s → All P (sorted s)
  unfolding sorted
  All-sorted [] h = tt
  All-sorted (x ∷ s) h = All-insert_sorted x (sorted s) h.0 (All-sorted s h.1)

module _ (setup : Setup) where
  pub rpc_ids_total :
      (s : List ℕ) → All (HasId setup) s → (ids : List RpcId) × (rpc_ids setup s ≡ some ids)
  unfolding rpc_ids
  rpc_ids_total [] h = ([], refl)
  rpc_ids_total (x ∷ s) h =
      let (id, p, _) = h.0 in let (ids, q) = rpc_ids_total s h.1 in (id ∷ ids, rw (p, q, rpc_ids))

  pub current_context-IsKnown :
      (tid pid : ℕ) (r : Runtime)
      → AllKnown setup r.state
      → AllKnown setup r.inherited
      → IsKnown setup (request_of (current_context tid pid r))
  unfolding current_context
  current_context-IsKnown tid pid r h k = elim (Option-cases (get tid r.state)) [
    | inr (c, p) ↦ rw (p, current_context) (h tid c p)
    | inl p ↦ elim (Option-cases (get pid r.inherited)) [
      | inl q ↦ rw (p, q, current_context) (inl refl)
      | inr (c, q) ↦ rw (p, q, current_context) (k pid c q)
    ]
  ]

-- a scope whose request and whose context are known
pub record IsKnownScope (setup : Setup) (s : Scope) : Type 0 where
  pub request : IsKnown setup s.request
  pub context : IsKnown setup (request_of s.context)

module _ (setup : Setup) where
  read_scope-IsKnownScope :
      (s : Scope) (call : Syscall) (c : Connection)
      → IsKnownScope setup s
      → All (HasId setup) c.requests
      → IsKnownScope setup (read_scope s call c)
  unfolding read_scope
  read_scope-IsKnownScope s call c known h = elim (List-cases c.requests) [
    | inl p ↦ rw (p, read_scope) known
    | inr (owner, others, p) ↦ elim (List-cases others) [
      | inr (_, _, q) ↦ rw (p, q, read_scope) known
      | inl q ↦ elim (Bool-cases (s.request == 0 && is_read call)) [
        | inr r ↦ rw (p, q, r, read_scope) known
        | inl r ↦
            let first : All (HasId setup) (owner ∷ others) = subst (All (HasId setup)) p h in
            rw (p, q, r, read_scope) (record { request = inr first.0.2; context = inr first.0.2 })
      ]
    ]
  ]

  known_owners-HasId : (r : ℕ) → IsSetup setup → All (HasId setup) (known_owners setup r)
  unfolding known_owners
  known_owners-HasId r good = elim (Option-cases (get r setup.owners)) [
    | inl p ↦ rw (p, known_owners) tt
    | inr (s, p) ↦ rw (p, known_owners) (good.owned r s p)
  ]

  candidates-HasId :
      (s : Scope) (c : Option Connection)
      → ((v : Connection) → c ≡ some v → All (HasId setup) v.requests)
      → All (HasId setup) (candidates s c)
  unfolding candidates
  candidates-HasId s none h = tt
  candidates-HasId s (some c) h =
      elim (Bool-cases (ltb 1 (length c.requests) && request_of s.context == 0)) [
        | inl p ↦ rw (p, candidates) (All-sorted (HasId setup) c.requests (h c refl))
        | inr p ↦ rw (p, candidates) tt
      ]

  -- The row of a call always exists.
  pub make_row_total :
      (e : Event) (s : Scope) (socket : Option ℕ) (c : Option Connection)
      → IsSetup setup
      → ((v : Connection) → c ≡ some v → All (HasId setup) v.requests)
      → (row : Row) × (make_row setup e s socket c ≡ some row)
  unfolding make_row
  make_row_total e s socket c good h =
      let (ids, p) = rpc_ids_total setup (sorted (known_owners setup s.request)) (
        All-sorted (HasId setup) (known_owners setup s.request)
          (known_owners-HasId s.request good)) in
      let (others, q) = rpc_ids_total setup (candidates s c) (candidates-HasId s c h) in
      (row_of e s socket ids others, rw (p, q, make_row))

  pub scope_of-IsKnownScope :
      (request : ℕ) (context : Option Context) (call : Syscall) (c : Option Connection)
      → IsKnown setup request
      → IsKnown setup (request_of context)
      → ((v : Connection) → c ≡ some v → All (HasId setup) v.requests)
      → IsKnownScope setup (scope_of request context call c)
  unfolding scope_of
  scope_of-IsKnownScope request context call none p q h = record { request = p; context = q }
  scope_of-IsKnownScope request context call (some c) p q h =
      read_scope-IsKnownScope (record { request = request; context = context }) call c
        (record { request = p; context = q }) (h c refl)

  pub put-AllKnown :
      (t : ℕ) (c : Context) (d : Dict ℕ Context)
      → IsKnown setup c.request
      → AllKnown setup d
      → AllKnown setup (put t c d)
  put-AllKnown t c d known h u v p = elim (Bool-cases (t == u)) [
    | inl here ↦
        let e : c ≡ v = some_injective (ground (arith, get-put t u c d)) in
        subst (λ x. IsKnown setup x.request) e known
    | inr there ↦ h u v (ground (arith, get-put t u c d))
  ]
