-- ===== src/Attribution/Run/Well.antt =====
-- The loop over the events in `attribute` of attribute.py, on a trace whose markers name requests of
-- the map.
use causpan.Prelude.{
  ℕ, ◌≡◌, refl, inl, inr, some, List, [], ◌∷◌, All, Bool-cases, Option-cases, nat_eq, ◌==◌, ◌||◌,
}
use causpan.Attribution.Types.{Marker, Event, Setup}
use causpan.Attribution.Runtime.{Runtime, report}
use causpan.Attribution.Ipc.Invariant.{IsConsistent}
use causpan.Attribution.Markers.Jobs.{process_marker-IsConsistent}
use causpan.Attribution.Markers.Contexts.{IsKnownRuntime, process_marker-IsKnownRuntime}
use causpan.Attribution.Syscalls.Owned.{IsSetup, IsKnown}
use causpan.Attribution.Trace.{Attributor}
use causpan.Attribution.Trace.Total.{IsWell}
use causpan.Attribution.Trace.Well.{process_trace-IsWell}
use causpan.Attribution.Run.{
  Observed, is_mapped, check_request, observe_marker, observe, observe_all,
}

-- the marker of an event, if it is one, names no request or one of the map
abbrev pub IsKnownNote : Setup → Observed → Type 0
IsKnownNote setup o = (m : Marker) → o.note ≡ some m → IsKnown setup m.request

module _ (setup : Setup) where
  check_request-IsConsistent :
      (n : ℕ) (r : Runtime) → IsConsistent r → IsConsistent (check_request setup n r)
  unfolding check_request report
  check_request-IsConsistent n r h = elim (Bool-cases (n == 0 || is_mapped setup n)) [
    | inl p ↦ rw (p, check_request) h
    | inr p ↦ rw (p, check_request) h
  ]

  check_request-IsKnownRuntime :
      (n : ℕ) (r : Runtime)
      → IsKnownRuntime setup r
      → IsKnownRuntime setup (check_request setup n r)
  unfolding check_request report
  check_request-IsKnownRuntime n r h = elim (Bool-cases (n == 0 || is_mapped setup n)) [
    | inl p ↦ rw (p, check_request) h
    | inr p ↦ rw (p, check_request) (record { state = h.state; inherited = h.inherited })
  ]

  observe_marker-IsWell :
      (m : Marker) (e : Event) (a : Attributor)
      → IsKnown setup m.request
      → IsWell setup a
      → IsWell setup (observe_marker setup m e a)
  unfolding observe_marker
  observe_marker-IsWell m e a known h =
      let checked = check_request setup m.request a.runtime in
      let contexts = process_marker-IsKnownRuntime setup m e m.kind checked known (
        check_request-IsKnownRuntime m.request a.runtime
          (record { state = h.state_known; inherited = h.inherited_known })) in
      record {
        sound = h.sound;
        owned = h.owned;
        consistent =
            process_marker-IsConsistent setup m.kind m e checked
              (check_request-IsConsistent m.request a.runtime h.consistent);
        state_known = contexts.state;
        inherited_known = contexts.inherited;
        classified = h.classified;
      }

  observe-IsWell :
      (o : Observed) (a : Attributor)
      → IsSetup setup
      → IsKnownNote setup o
      → IsWell setup a
      → (b : Attributor) × (observe setup o a ≡ some b) × IsWell setup b
  unfolding observe
  observe-IsWell o a good known h = elim (Option-cases o.note) [
    | inl p ↦
        let (b, q, well) = process_trace-IsWell setup o.event a good h in
        (b, rw (p, observe) q, well)
    | inr (m, p) ↦ (
      observe_marker setup m o.event a,
      rw (p, observe),
      observe_marker-IsWell m o.event a (known m p) h,
    )
  ]

-- On a setup that gives every owner an id, from a well-formed state and over a trace whose markers
-- name no request or one of the map, the loop over the events raises nothing and ends in a
-- well-formed state: descriptors, connections, jobs and contexts are consistent and every row is
-- classified.
pub observe_all-IsWell :
    (setup : Setup) (os : List Observed) (a : Attributor)
    → IsSetup setup
    → All (IsKnownNote setup) os
    → IsWell setup a
    → (b : Attributor) × (observe_all setup os a ≡ some b) × IsWell setup b
unfolding observe_all
observe_all-IsWell setup [] a good known h = (a, refl, h)
observe_all-IsWell setup (o ∷ os) a good known h =
    let (b, p, well) = observe-IsWell setup o a good known.0 h in
    let (c, q, end) = observe_all-IsWell setup os b good known.1 well in
    (c, rw (p, observe_all) q, end)
