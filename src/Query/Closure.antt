-- ===== src/Query/Closure.antt =====
-- The `while changed` loops of `evidence_chain` in query.py end in the nodes that the edges reach.
use causpan.Prelude.{
  ℕ, zero, suc, ◌+◌, ◌<◌, ◌≤◌, String, ◌≡◌, refl, sym, ◌∙◌, inl, inr, ◌↔◌, subst, Option, none,
  some, none≢some, some_injective, List, [], ◌∷◌, Bool, true, false, ◌&&◌, not, ◌==◌, string_eq,
  string_eq_iff, length, In, member, add, member-add, ==_refl, Bool-cases, Option-cases,
  if◌then◌else◌, arith,
}
use mathlib.Core.Bool.{true≢false, false≢true}
use causpan.Query.{Record, pass, repeat, close}

module _ (ends : Record → Option (String × String)) where
  -- A node is reached if it was wanted, or an edge leads to it from a reached one.
  pub data Reached (graph : List Record) (wanted : List String) : String → Type 0 where
    wanted_node : (x : String) → member x wanted ≡ true → Reached graph wanted x
    along :
        (r : Record) (x y : String)
        → In r graph
        → ends r ≡ some (x, y)
        → Reached graph wanted x
        → Reached graph wanted y

  abbrev Within : List String → List String → Type 0
  Within s t = (x : String) → member x s ≡ true → member x t ≡ true

  add-Within : (y : String) (s : List String) → Within s (add y s)
  add-Within y s x h = ground (arith, member-add y x s)

  -- what a round does at a record
  pass-edge :
      (r : Record) (rs : List Record) (w : List String) (x y : String)
      → ends r ≡ some (x, y)
      → member x w && not (member y w) ≡ true
      → pass ends (r ∷ rs) w ≡ ((pass ends rs (add y w)).0, true)
  unfolding pass
  pass-edge r rs w x y p q = rw (p, q, pass) refl

  pass-other :
      (r : Record) (rs : List Record) (w : List String) (x y : String)
      → ends r ≡ some (x, y)
      → member x w && not (member y w) ≡ false
      → pass ends (r ∷ rs) w ≡ pass ends rs w
  unfolding pass
  pass-other r rs w x y p q = rw (p, q, pass) refl

  pass-none :
      (r : Record) (rs : List Record) (w : List String)
      → ends r ≡ none
      → pass ends (r ∷ rs) w ≡ pass ends rs w
  unfolding pass
  pass-none r rs w p = rw (p, pass) refl

  -- to show something of a round over a longer graph
  data PassStep (r : Record) (rs : List Record) (w : List String) : Type 0 where
    same :
        pass ends (r ∷ rs) w ≡ pass ends rs w
        → ((x y : String) → ends r ≡ some (x, y) → member x w && not (member y w) ≡ false)
        → PassStep r rs w
    grown :
        (x y : String)
        → ends r ≡ some (x, y)
        → member x w ≡ true
        → member y w ≡ false
        → pass ends (r ∷ rs) w ≡ ((pass ends rs (add y w)).0, true)
        → PassStep r rs w

  pass-step : (r : Record) (rs : List Record) (w : List String) → PassStep r rs w
  pass-step r rs w = elim (Option-cases (ends r)) [
    | inl p ↦ PassStep.same (pass-none r rs w p) (λ x y q. absurd (none≢some (sym p ∙ q)))
    | inr ((x, y), p) ↦ elim (Bool-cases (member x w && not (member y w))) [
      | inl q ↦ PassStep.grown x y p (ground arith) (ground arith) (pass-edge r rs w x y p q)
      | inr q ↦ PassStep.same (pass-other r rs w x y p q) (λ u v k.
          let e : (x, y) ≡ (u, v) = some_injective (sym p ∙ k) in
          subst (λ (z : String × String). member z.0 w && not (member z.1 w) ≡ false) e q)
    ]
  ]

  pass-Within : (rs : List Record) (w : List String) → Within w (pass ends rs w).0
  unfolding pass
  pass-Within [] w x h = h
  pass-Within (r ∷ rs) w x h = elim (pass-step r rs w) [
    | PassStep.same e _ ↦ rw e (pass-Within rs w x h)
    | PassStep.grown u y _ _ _ e ↦ rw e (pass-Within rs (add y w) x (add-Within y w x h))
  ]

  -- only reached nodes are added
  pass-Reached :
      (graph : List Record) (wanted : List String) (rs : List Record) (w : List String)
      → ((r : Record) → In r rs → In r graph)
      → ((x : String) → member x w ≡ true → Reached graph wanted x)
      → (x : String) → member x (pass ends rs w).0 ≡ true
      → Reached graph wanted x
  unfolding pass
  pass-Reached graph wanted [] w sub own x h = own x h
  pass-Reached graph wanted (r ∷ rs) w sub own x h = elim (pass-step r rs w) [
    | PassStep.same e _ ↦ pass-Reached graph wanted rs w (λ q i. sub q (inr i)) own x (rw e at h)
    | PassStep.grown u y p m _ e ↦
        pass-Reached graph wanted rs (add y w) (λ q i. sub q (inr i))
          (λ z k. elim (Bool-cases (y == z)) [
            | inl here ↦
                subst (Reached graph wanted) ((string_eq_iff y z).0 here)
                  (Reached.along r u y (sub r (inl refl)) p (own u m))
            | inr there ↦ own z (ground (arith, member-add y z w))
          ])
          x (rw e at h)
  ]

  -- a round that changes nothing finds no edge to follow
  record Stuck (rs : List Record) (w : List String) : Type 0 where
    same : (pass ends rs w).0 ≡ w
    closed :
        (r : Record) (x y : String)
        → In r rs
        → ends r ≡ some (x, y)
        → member x w && not (member y w) ≡ false

  pass-Stuck : (rs : List Record) (w : List String) → (pass ends rs w).1 ≡ false → Stuck rs w
  unfolding pass
  pass-Stuck [] w h = record { same = refl; closed = λ r x y i p. absurd i }
  pass-Stuck (r ∷ rs) w h = elim (pass-step r rs w) [
    | PassStep.grown u y p m k e ↦ absurd (true≢false (rw e at h))
    | PassStep.same e skip ↦
        let rest = pass-Stuck rs w (rw e at h) in
        record {
          same = rw e rest.same;
          closed =
              λ q x y i p. elim i [ inl s ↦ skip x y (rw s p) | inr j ↦ rest.closed q x y j p ];
        }
  ]

  -- how many edges lead out of the set
  abbrev weight : Option (String × String) → List String → ℕ
  weight none w = 0
  weight (some e) w = if member e.1 w then 0 else 1

  abbrev missing : List Record → List String → ℕ
  missing [] w = 0
  missing (r ∷ rs) w = weight (ends r) w + missing rs w

  weight-Within :
      (e : Option (String × String)) (s t : List String) → Within s t → weight e t ≤ weight e s
  weight-Within none s t h = omega arith
  weight-Within (some (x, y)) s t h = elim (Bool-cases (member y s)) [
    | inl p ↦ rw (p, h y p) (omega arith)
    | inr p ↦ ground arith
  ]

  missing-Within : (rs : List Record) (s t : List String) → Within s t → missing rs t ≤ missing rs s
  missing-Within [] s t h = omega arith
  missing-Within (r ∷ rs) s t h =
      omega (arith, weight-Within (ends r) s t h, missing-Within rs s t h)

  weight_bound : (e : Option (String × String)) (w : List String) → weight e w ≤ 1
  weight_bound none w = omega arith
  weight_bound (some e) w = ground arith

  missing-bound : (rs : List Record) (w : List String) → missing rs w ≤ length rs
  missing-bound [] w = omega arith
  missing-bound (r ∷ rs) w = omega (arith, weight_bound (ends r) w, missing-bound rs w)

  fewer_missing :
      (r : Record) (rs : List Record) (w v : List String) (x y : String)
      → ends r ≡ some (x, y)
      → member y v ≡ true
      → member y w ≡ false
      → missing rs v ≤ missing rs w
      → missing (r ∷ rs) v < missing (r ∷ rs) w
  fewer_missing r rs w v x y p m k le =
      let here : weight (ends r) v ≡ 0 = rw p (rw m refl) in
      let before : weight (ends r) w ≡ 1 = rw p (rw k refl) in omega (arith, here, before, le)

  pass-missing :
      (rs : List Record) (w : List String)
      → (pass ends rs w).1 ≡ true
      → missing rs (pass ends rs w).0 < missing rs w
  unfolding pass
  pass-missing [] w h = absurd (false≢true h)
  pass-missing (r ∷ rs) w h = elim (pass-step r rs w) [
    | PassStep.same e _ ↦
        let fewer = pass-missing rs w (rw e at h) in
        let kept = weight-Within (ends r) w (pass ends rs w).0 (pass-Within rs w) in
        rw e (omega (arith, fewer, kept))
    | PassStep.grown u y p m k e ↦
        let v = (pass ends rs (add y w)).0 in
        let inside : Within w v = λ x n. pass-Within rs (add y w) x (add-Within y w x n) in
        let found : member y v ≡ true =
          pass-Within rs (add y w) y (ground (arith, member-add y y w, ==_refl y)) in
        subst (λ (z : List String × Bool). missing (r ∷ rs) z.0 < missing (r ∷ rs) w) (sym e)
          (fewer_missing r rs w v u y p found k (missing-Within rs w v inside))
  ]

  -- What the loop ends in: the wanted nodes are there, only reached ones are, and no edge leaves.
  record Closed (graph : List Record) (wanted v : List String) : Type 0 where
    inside : Within wanted v
    reached : (x : String) → member x v ≡ true → Reached graph wanted x
    closed :
        (r : Record) (x y : String)
        → In r graph
        → ends r ≡ some (x, y)
        → member x v && not (member y v) ≡ false

  repeat-Closed :
      (n : ℕ) (graph : List Record) (wanted w : List String)
      → missing graph w < n
      → Within wanted w
      → ((x : String) → member x w ≡ true → Reached graph wanted x)
      → Closed graph wanted (repeat ends n graph w)
  unfolding repeat
  repeat-Closed zero graph wanted w h sub own = absurd (omega (arith, h))
  repeat-Closed (suc n) graph wanted w h sub own = elim (Bool-cases (pass ends graph w).1) [
    | inl p ↦
        rw (p, repeat)
          (repeat-Closed n graph wanted (pass ends graph w).0
            (omega (arith, h, pass-missing graph w p)) (λ x k. pass-Within graph w x (sub x k))
            (pass-Reached graph wanted graph w (λ r i. i) own))
    | inr p ↦
        let stuck = pass-Stuck graph w p in
        rw (p, repeat)
          (rw stuck.same (record { inside = sub; reached = own; closed = stuck.closed }))
  ]

  Reached-member :
      (graph : List Record) (wanted v : List String) (x : String)
      → Closed graph wanted v
      → Reached graph wanted x
      → member x v ≡ true
  Reached-member graph wanted v x c (Reached.wanted_node _ h) = c.inside x h
  Reached-member graph wanted v y c (Reached.along r x _ i p h) =
      let k = Reached-member graph wanted v x c h in
      let m = c.closed r x y i p in ground (arith, k, m)

-- The loop ends within a round for each record of the graph and one more, and what it ends in are
-- exactly the wanted nodes and those that the edges reach from them.
pub close-Reached :
    (ends : Record → Option (String × String)) (graph : List Record) (wanted : List String)
    (x : String)
    → (member x (close ends graph wanted) ≡ true) ↔ Reached ends graph wanted x
unfolding close
close-Reached ends graph wanted x =
    let enough : missing ends graph wanted < suc (length graph) =
      omega (arith, missing-bound ends graph wanted) in
    let c =
      repeat-Closed ends (suc (length graph)) graph wanted wanted enough (λ y h. h)
        (λ y h. Reached.wanted_node y h) in
    (c.reached x, Reached-member ends graph wanted (close ends graph wanted) x c)
