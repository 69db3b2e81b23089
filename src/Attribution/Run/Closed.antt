-- ===== src/Attribution/Run/Closed.antt =====
-- What a run publishes (`Attributor.attribute` and the wrapper `attribute` of attribute.py).
use causpan.Prelude.{
  ℕ, ◌+◌, ◌==◌, if◌then◌else◌, ◌≡◌, refl, ◌⊎◌, inl, inr, Option, some, List, [], ◌∷◌, ◌++◌,
  cons≢nil, map, Dict, get, All, Bool, true, false, Bool-cases, Option-cases, List-cases, String,
  string_eq, arith, nat_eq,
}
use causpan.Attribution.Types.{Row, RpcId, GraphRecord, Error, Setup}
use causpan.Attribution.Rows.Fits.{IsClassified}
use causpan.Attribution.Syscalls.Owned.{IsSetup}
use causpan.Attribution.Trace.{Attributor}
use causpan.Attribution.Trace.Total.{IsWell}
use causpan.Attribution.Bind.{bind_socket_reads}
use causpan.Attribution.Validate.Complete.{is_true, IsComplete, validate-IsComplete, append-empty}
use causpan.Attribution.Run.{
  Observed, Sources, Output, Files, observe_all, drop_stale_edges, is_oracle_wrong, count_wrong,
  oracle_errors, invalidate, publish, all_errors, conclude, attribute, published, same_rpc,
}
use causpan.Attribution.Run.Well.{IsKnownNote, observe_all-IsWell}
use causpan.Attribution.Run.Bound.{bind_socket_reads-LateBinding, Pairwise-IsClassified}

invalidate-IsClassified : (rows : List Row) → All IsClassified (map invalidate rows)
unfolding invalidate
invalidate-IsClassified [] = tt
invalidate-IsClassified (row ∷ rows) = ((refl, refl), invalidate-IsClassified rows)

publish-IsClassified :
    (errors : List Error) (rows : List Row) (graph : List GraphRecord) (n : ℕ)
    → All IsClassified rows
    → All IsClassified (publish errors rows graph n).rows
unfolding publish
publish-IsClassified [] rows graph n h = h
publish-IsClassified (e ∷ es) rows graph n h = invalidate-IsClassified rows

-- On a setup that gives every owner an id, from a well-formed state and over a trace whose markers
-- name no request or one of the map, `attribute` comes to an output, and each of its rows is
-- classified: a bound row has one request id and names it, one of several parents has at least
-- two and names none, and any other row has none.
pub attribute-IsClassified :
    (setup : Setup) (sources : Sources) (os : List Observed) (a : Attributor)
    → IsSetup setup
    → All (IsKnownNote setup) os
    → IsWell setup a
    → (o : Output) × (attribute setup sources os a ≡ some o) × All IsClassified o.rows
unfolding attribute conclude
attribute-IsClassified setup sources os a good known h =
    let (b, p, well) = observe_all-IsWell setup os a good known h in
    let (rows, n, q, pairs) =
      bind_socket_reads-LateBinding setup b.descriptors.connections b.tagged well.owned in
    let fits =
      Pairwise-IsClassified setup b.descriptors.connections b.tagged rows pairs well.classified in
    let graph = drop_stale_edges rows b.runtime.graph ++ sources.added_records in
    (
      publish (all_errors sources b rows) rows graph n,
      rw (p, attribute) (rw (q, conclude) refl),
      publish-IsClassified (all_errors sources b rows) rows graph n fits,
    )

-- a row that the oracle labels has the label as its request
abbrev pub AgreesWith : Dict String (Option RpcId) → Row → Type 0
AgreesWith oracle row =
    (id : RpcId)
    → get row.event.source oracle ≡ some (some id)
    → same_rpc row.request_id (some id) ≡ true

-- The files of a run with no diagnostic.
pub record IsValidRun (setup : Setup) (sources : Sources) (os : List Observed) (a : Attributor)
    (f : Files) : Type 0 where
  pub end : Attributor
  pub resolved : ℕ
  pub events : observe_all setup os a ≡ some end
  pub bound :
      bind_socket_reads setup end.descriptors.connections end.tagged ≡ some (f.rows, resolved)
  pub graph : f.graph ≡ drop_stale_edges f.rows end.runtime.graph ++ sources.added_records
  pub no_error : end.runtime.errors ≡ []
  pub no_adapter_error : sources.adapter_errors ≡ []
  pub complete : IsComplete sources.quality sources.native_log end.seen end.runtime
  pub oracle : All (AgreesWith sources.oracle) f.rows

no_weight : (b : Bool) (n : ℕ) → (if b then 1 else 0) + n ≡ 0 → (b ≡ false) × (n ≡ 0)
no_weight true n h = absurd (omega (arith, h))
no_weight false n h = (refl, omega (arith, h))

is_oracle_wrong-AgreesWith :
    (oracle : Dict String (Option RpcId)) (row : Row)
    → is_oracle_wrong oracle row ≡ false
    → AgreesWith oracle row
unfolding is_oracle_wrong
is_oracle_wrong-AgreesWith oracle row h id p = is_true _ (rw (p, is_oracle_wrong) at h)

count_wrong-AgreesWith :
    (oracle : Dict String (Option RpcId)) (rows : List Row)
    → count_wrong oracle rows ≡ 0
    → All (AgreesWith oracle) rows
unfolding count_wrong is_oracle_wrong
count_wrong-AgreesWith oracle [] h = tt
count_wrong-AgreesWith oracle (row ∷ rows) h =
    let parts = no_weight (is_oracle_wrong oracle row) (count_wrong oracle rows) h in
    (is_oracle_wrong-AgreesWith oracle row parts.0, count_wrong-AgreesWith oracle rows parts.1)

oracle_errors-zero : (n : ℕ) → oracle_errors n ≡ [] → n ≡ 0
unfolding oracle_errors
oracle_errors-zero n h = elim (Bool-cases (n == 0)) [
  | inl p ↦ ground arith
  | inr p ↦ absurd (cons≢nil (rw (p, oracle_errors) at h))
]

-- the run whose output has no error
conclude-IsValidRun :
    (setup : Setup) (sources : Sources) (os : List Observed) (a b : Attributor) (rows : List Row)
    (n : ℕ)
    → observe_all setup os a ≡ some b
    → bind_socket_reads setup b.descriptors.connections b.tagged ≡ some (rows, n)
    → all_errors sources b rows ≡ []
    → IsValidRun setup sources os a (record {
      valid = true;
      rows = rows;
      graph = drop_stale_edges rows b.runtime.graph ++ sources.added_records;
    })
unfolding all_errors
conclude-IsValidRun setup sources os a b rows n p q h =
    let parts = append-empty _ _ h in
    let rest = append-empty _ _ parts.1 in
    let last = append-empty _ _ rest.1 in
    record {
      end = b;
      resolved = n;
      events = p;
      bound = q;
      graph = refl;
      no_error = parts.0;
      no_adapter_error = rest.0;
      complete = validate-IsComplete sources.quality sources.native_log b.seen b.runtime last.0;
      oracle =
          count_wrong-AgreesWith sources.oracle rows
            (oracle_errors-zero (count_wrong sources.oracle rows) last.1);
    }

-- What a run publishes: either a report that is not valid, with both files empty, or a valid one.
-- A valid one comes of a run that raised nothing and reported no diagnostic, on a complete capture:
-- its rows are the bound rows of the run, and the oracle agrees with every row that it labels.
pub attribute-IsValidRun :
    (setup : Setup) (sources : Sources) (os : List Observed) (a : Attributor)
    → (published (attribute setup sources os a) ≡ record { valid = false; rows = []; graph = [] })
      ⊎ ((published (attribute setup sources os a)).valid ≡ true
          × IsValidRun setup sources os a (published (attribute setup sources os a)))
unfolding attribute conclude published publish
attribute-IsValidRun setup sources os a = elim (Option-cases (observe_all setup os a)) [
  | inl p ↦ inl (rw (p, attribute) refl)
  | inr (b, p) ↦ elim (Option-cases (bind_socket_reads setup b.descriptors.connections b.tagged)) [
    | inl q ↦ inl (rw (p, q, attribute, conclude) refl)
    | inr ((rows, n), q) ↦ elim (List-cases (all_errors sources b rows)) [
      | inr (e, es, r) ↦ inl (rw (p, q, r, attribute, conclude, publish) refl)
      | inl r ↦
          rw (p, q, r, attribute, conclude, publish)
            (inr (refl, conclude-IsValidRun setup sources os a b rows n p q r))
    ]
  ]
]
