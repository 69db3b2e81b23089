-- ===== src/Prelude/Sets.antt =====
-- A Python set of numbers as a list with no number twice, and `sorted`.
use Prim.Native.Nat.{ℕ}
use mathlib.Core.Path.{◌≡◌, refl, sym, ap, subst}
use mathlib.Core.Logic.{inl, inr}
use mathlib.Core.Bool.{Bool, true, false, ◌||◌, false≢true}
use mathlib.Core.List.{List, [], ◌∷◌, ◌++◌}
use native.Mathlib.Omega.{arith}
use causpan.Prelude.Lists.{All}
use causpan.Prelude.Tests.{Eq, ◌==◌, nat_eq, leb, Bool-cases, if◌then◌else◌}

module _ {ℓ} {A : Type ℓ} ⦃e : Eq A⦄ where
  -- `a in s`
  unfoldable pub member : A → List A → Bool
  member a [] = false
  member a (x ∷ s) = x == a || member a s

  -- `s.add(a)`
  unfoldable pub add : A → List A → List A
  unfolding member
  add a s = if member a s then s else s ++ a ∷ []

  -- `s.update(t)`, `s | t`
  unfoldable pub union : List A → List A → List A
  unfolding add
  union s [] = s
  union s (a ∷ t) = union (add a s) t

  -- `s.discard(a)`
  unfoldable pub discard : A → List A → List A
  discard a [] = []
  discard a (x ∷ s) = let rest = discard a s in if x == a then rest else x ∷ rest

  member_one : (a b : A) → member b (a ∷ []) ≡ (a == b)
  unfolding member
  member_one a b = ground arith

  pub member-append : (a : A) (s t : List A) → member a (s ++ t) ≡ (member a s || member a t)
  unfolding member
  member-append a [] t = refl
  member-append a (x ∷ s) t = ground (arith, member-append a s t)

  member_of_eq : (a b : A) (s : List A) → a ≡ b → member b s ≡ member a s
  member_of_eq a b s p = ap (λ x. member x s) (sym p)

  pub member-add : (a b : A) (s : List A) → member b (add a s) ≡ (a == b || member b s)
  unfolding add
  member-add a b s =
      ground (arith, e.same_iff a b, member-append b s (a ∷ []), member_of_eq a b s, member_one a b)

  pub member-union : (a : A) (s t : List A) → member a (union s t) ≡ (member a s || member a t)
  unfolding union
  member-union a s [] = unfold member in ground arith
  member-union a s (b ∷ t) =
      unfold member in ground (arith, member-union a (add b s) t, member-add b a s)

  pub member-discard :
      (a b : A) (s : List A) → member b (discard a s) ≡ (if a == b then false else member b s)
  unfolding discard member
  member-discard a b [] = ground arith
  member-discard a b (x ∷ s) =
      ground (arith, e.same_iff a b, e.same_iff x a, e.same_iff x b, member-discard a b s)

module _ {ℓ κ} {A : Type ℓ} ⦃e : Eq A⦄ where
  pub All-member : (P : A → Type κ) (a : A) (xs : List A) → All P xs → member a xs ≡ true → P a
  unfolding member
  All-member P a [] h m = absurd (false≢true m)
  All-member P a (x ∷ xs) h m = elim (Bool-cases (x == a)) [
    | inl p ↦ subst P ((e.same_iff x a).0 p) h.0
    | inr p ↦ All-member P a xs h.1 (rw p at m)
  ]

-- `sorted` of numbers, by insertion
unfoldable pub insert_sorted : ℕ → List ℕ → List ℕ
insert_sorted a [] = a ∷ []
insert_sorted a (x ∷ s) = let rest = insert_sorted a s in if leb a x then a ∷ x ∷ s else x ∷ rest

unfoldable pub sorted : List ℕ → List ℕ
unfolding insert_sorted
sorted [] = []
sorted (x ∷ s) = insert_sorted x (sorted s)

-- no element stands twice
abbrev pub IsUnique {ℓ} : {A : Type ℓ} ⦃e : Eq A⦄ → List A → Type 0
IsUnique [] = Unit
IsUnique (x ∷ s) = (member x s ≡ false) × IsUnique s

module _ {ℓ} {A : Type ℓ} ⦃e : Eq A⦄ where
  pub append_one-IsUnique :
      (a : A) (s : List A) → member a s ≡ false → IsUnique s → IsUnique (s ++ a ∷ [])
  unfolding member
  append_one-IsUnique a [] h u = (refl, tt)
  append_one-IsUnique a (x ∷ s) h u = (
    ground (arith, member-append x s (a ∷ []), e.same_iff a x, e.same_iff x a),
    append_one-IsUnique a s (ground arith) u.1,
  )

  pub add-IsUnique : (a : A) (s : List A) → IsUnique s → IsUnique (add a s)
  unfolding add
  add-IsUnique a s u = elim (Bool-cases (member a s)) [
    | inl p ↦ rw (p, add) u
    | inr p ↦ rw (p, add) (append_one-IsUnique a s p u)
  ]

module _ {ℓ} {A : Type ℓ} ⦃e : Eq A⦄ where
  pub union-IsUnique : (s t : List A) → IsUnique s → IsUnique (union s t)
  unfolding union
  union-IsUnique s [] u = u
  union-IsUnique s (a ∷ t) u = union-IsUnique (add a s) t (add-IsUnique a s u)

  -- a set whose one member is known is a list of one
  pub one_member :
      (x : A) (s : List A)
      → IsUnique s
      → member x s ≡ true
      → ((y : A) → member y s ≡ true → y ≡ x)
      → s ≡ x ∷ []
  unfolding member
  one_member x [] u m only = absurd (false≢true m)
  one_member x (a ∷ []) u m only = ap (λ y. y ∷ []) (only a (ground (arith, e.same_iff a a)))
  one_member x (a ∷ b ∷ s) u m only =
      let p = only a (ground (arith, e.same_iff a a)) in
      let q = only b (ground (arith, e.same_iff b b)) in
      absurd (ground (arith, u.0, e.same_iff b a))
