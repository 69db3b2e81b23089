-- ===== src/Prelude/Dicts.antt =====
-- A Python dict: an association list in insertion order. An assignment to a key that is there keeps
-- its place.
use Prim.Native.Nat.{ℕ, ◌+◌}
use mathlib.Core.Path.{◌≡◌, refl, sym, ap, subst}
use mathlib.Core.Logic.{inl, inr}
use mathlib.Core.Bool.{Bool, true, false, ◌||◌}
use mathlib.Core.List.{List, [], ◌∷◌}
use mathlib.Core.Option.{Option, none, some}
use native.Mathlib.Omega.{arith}
use causpan.Prelude.Lists.{length}
use causpan.Prelude.Tests.{none≢some, some_injective, Eq, ◌==◌, Bool-cases, if◌then◌else◌}

abbrev pub Dict {ℓ κ} : Type ℓ → Type κ → Type (ℓ ⊔ κ)
Dict K V = List (K × V)

module _ {ℓ κ} {K : Type ℓ} {V : Type κ} ⦃e : Eq K⦄ where
  -- `d.get(k)`
  unfoldable pub get : K → Dict K V → Option V
  get k [] = none
  get k ((j, v) ∷ d) = if j == k then some v else get k d

  -- `k in d`
  abbrev pub has : K → Dict K V → Bool
  has k d = elim (get k d) [ none ↦ false | some _ ↦ true ]

  -- `d[k] = v`
  unfoldable pub put : K → V → Dict K V → Dict K V
  put k v [] = (k, v) ∷ []
  put k v ((j, w) ∷ d) = if j == k then (k, v) ∷ d else (j, w) ∷ put k v d

  -- `d.pop(k, None)`
  unfoldable pub remove : K → Dict K V → Dict K V
  remove k [] = []
  remove k ((j, v) ∷ d) = let rest = remove k d in if j == k then rest else (j, v) ∷ rest

  pub get-put :
      (k j : K) (v : V) (d : Dict K V) → get j (put k v d) ≡ (if k == j then some v else get j d)
  unfolding get put
  get-put k j v [] = refl
  get-put k j v ((i, w) ∷ d) =
      ground (arith, e.same_iff k j, e.same_iff i k, e.same_iff i j, get-put k j v d)

  pub get-remove :
      (k j : K) (d : Dict K V) → get j (remove k d) ≡ (if k == j then none else get j d)
  unfolding get remove
  get-remove k j [] = ground arith
  get-remove k j ((i, w) ∷ d) =
      ground (arith, e.same_iff k j, e.same_iff i k, e.same_iff i j, get-remove k j d)

  pub has-put : (k j : K) (v : V) (d : Dict K V) → has j (put k v d) ≡ (k == j || has j d)
  has-put k j v d = ground (arith, get-put k j v d)

  -- no key stands twice; a Python dict never breaks this
  abbrev pub IsDistinct : Dict K V → Type κ
  IsDistinct [] = Unit
  IsDistinct ((k, v) ∷ d) = (get k d ≡ none) × IsDistinct d

  pub put-IsDistinct : (k : K) (v : V) (d : Dict K V) → IsDistinct d → IsDistinct (put k v d)
  unfolding put get
  put-IsDistinct k v [] h = (refl, tt)
  put-IsDistinct k v ((j, w) ∷ d) h = elim (Bool-cases (j == k)) [
    | inl p ↦ rw p (subst (λ i. get i d ≡ none) ((e.same_iff j k).0 p) h.0, h.1)
    | inr p ↦
        rw p (
          ground (arith, get-put k j v d, e.same_iff j k, e.same_iff k j),
          put-IsDistinct k v d h.1,
        )
  ]

  pub remove-IsDistinct : (k : K) (d : Dict K V) → IsDistinct d → IsDistinct (remove k d)
  unfolding remove get
  remove-IsDistinct k [] h = tt
  remove-IsDistinct k ((j, w) ∷ d) h = elim (Bool-cases (j == k)) [
    | inl p ↦ rw p (remove-IsDistinct k d h.1)
    | inr p ↦ rw p (ground (arith, get-remove k j d), remove-IsDistinct k d h.1)
  ]

module _ {ℓ κ} {K : Type ℓ} {V : Type κ} ⦃e : Eq K⦄ (k : K) where
  pub length-put : (v : V) (d : Dict K V) → get k d ≡ none → length (put k v d) ≡ length d + 1
  unfolding get put
  length-put v [] h = refl
  length-put v ((j, w) ∷ d) h = elim (Bool-cases (j == k)) [
    | inl p ↦ absurd (none≢some (sym (rw p at h)))
    | inr p ↦ rw p (omega (arith, length-put v d (rw p at h)))
  ]

  pub length-remove-none : (d : Dict K V) → get k d ≡ none → length (remove k d) ≡ length d
  unfolding get remove
  length-remove-none [] h = refl
  length-remove-none ((j, w) ∷ d) h = elim (Bool-cases (j == k)) [
    | inl p ↦ absurd (none≢some (sym (rw p at h)))
    | inr p ↦ rw p (omega (arith, length-remove-none d (rw p at h)))
  ]

  pub length-remove-some :
      (v : V) (d : Dict K V) → IsDistinct d → get k d ≡ some v → length (remove k d) + 1 ≡ length d
  unfolding get remove
  length-remove-some v [] distinct h = absurd (none≢some h)
  length-remove-some v ((j, w) ∷ d) distinct h = elim (Bool-cases (j == k)) [
    | inl p ↦
        let same_key : j ≡ k = (e.same_iff j k).0 p in
        let gone : get k d ≡ none = subst (λ i. get i d ≡ none) same_key distinct.0 in
        rw p (omega (arith, length-remove-none d gone))
    | inr p ↦ rw p (omega (arith, length-remove-some v d distinct.1 (rw p at h)))
  ]

-- the sum of a weight over the values
abbrev pub total_of {ℓ κ} : {K : Type ℓ} {V : Type κ} → (V → ℕ) → Dict K V → ℕ
total_of f [] = 0
total_of f ((_, v) ∷ d) = f v + total_of f d

module _ {ℓ κ} {K : Type ℓ} {V : Type κ} ⦃e : Eq K⦄ (f : V → ℕ) (k : K) where
  pub total_of-put :
      (v : V) (d : Dict K V) → get k d ≡ none → total_of f (put k v d) ≡ total_of f d + f v
  unfolding get put
  total_of-put v [] h = omega arith
  total_of-put v ((j, w) ∷ d) h = elim (Bool-cases (j == k)) [
    | inl p ↦ absurd (none≢some (sym (rw p at h)))
    | inr p ↦ rw p (omega (arith, total_of-put v d (rw p at h)))
  ]

  pub total_of-remove-none :
      (d : Dict K V) → get k d ≡ none → total_of f (remove k d) ≡ total_of f d
  unfolding get remove
  total_of-remove-none [] h = refl
  total_of-remove-none ((j, w) ∷ d) h = elim (Bool-cases (j == k)) [
    | inl p ↦ absurd (none≢some (sym (rw p at h)))
    | inr p ↦ rw p (omega (arith, total_of-remove-none d (rw p at h)))
  ]

  pub total_of-remove-some :
      (v : V) (d : Dict K V)
      → IsDistinct d
      → get k d ≡ some v
      → total_of f (remove k d) + f v ≡ total_of f d
  unfolding get remove
  total_of-remove-some v [] distinct h = absurd (none≢some h)
  total_of-remove-some v ((j, w) ∷ d) distinct h = elim (Bool-cases (j == k)) [
    | inl p ↦
        let same_key : j ≡ k = (e.same_iff j k).0 p in
        let gone : get k d ≡ none = subst (λ i. get i d ≡ none) same_key distinct.0 in
        let same : w ≡ v = some_injective (rw p at h) in
        rw p (omega (arith, total_of-remove-none d gone, ap f same))
    | inr p ↦ rw p (omega (arith, total_of-remove-some v d distinct.1 (rw p at h)))
  ]
