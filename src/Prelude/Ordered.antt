-- ===== src/Prelude/Ordered.antt =====
-- Membership and order: what a stable sort, a filter and a cut to the first rows keep.
use Prim.Native.Nat.{ℕ, zero, suc}
use mathlib.Core.Path.{◌≡◌, refl, sym, ap, subst}
use mathlib.Core.Logic.{◌⊎◌, inl, inr}
use mathlib.Core.Bool.{Bool, true, false}
use mathlib.Core.List.{List, [], ◌∷◌, map}
use incident_intelligence_pl.Prelude.Tests.{Bool-cases}
use incident_intelligence_pl.Prelude.Lists.{All, filter_by, insert_by, sort_by, take, length}
use incident_intelligence_pl.Prelude.Keyed.{All-filter_by, All-insert_by, All-imp}

abbrev pub In : {A : Type 0} → A → List A → Type 0
In x [] = ⊥
In x (y ∷ ys) = (x ≡ y) ⊎ In x ys

-- No element stands behind a later one.
abbrev pub Sorted {ℓ} : {A : Type ℓ} → (A → A → Bool) → List A → Type 0
Sorted leq [] = Unit
Sorted leq (x ∷ xs) = All (λ y. leq x y ≡ true) xs × Sorted leq xs

pub record IsOrder {ℓ} {A : Type ℓ} (leq : A → A → Bool) : Type ℓ where
  pub trans : (x y z : A) → leq x y ≡ true → leq y z ≡ true → leq x z ≡ true
  pub total : (x y : A) → leq x y ≡ false → leq y x ≡ true

module _ {A : Type 0} where
  pub All-In : (P : A → Type 0) (x : A) (xs : List A) → All P xs → In x xs → P x
  All-In P x [] h i = absurd i
  All-In P x (y ∷ ys) h (inl e) = subst P (sym e) h.0
  All-In P x (y ∷ ys) h (inr i) = All-In P x ys h.1 i

  pub In-filter_by :
      (test : A → Bool) (x : A) (xs : List A) → test x ≡ true → In x xs → In x (filter_by test xs)
  unfolding filter_by
  In-filter_by test x [] t i = i
  In-filter_by test x (y ∷ ys) t (inl e) = rw (← e, t) (inl refl)
  In-filter_by test x (y ∷ ys) t (inr i) = elim (Bool-cases (test y)) [
    | inl e ↦ rw e (inr (In-filter_by test x ys t i))
    | inr e ↦ rw e (In-filter_by test x ys t i)
  ]

  In-insert_by_self : (leq : A → A → Bool) (x : A) (xs : List A) → In x (insert_by leq x xs)
  unfolding insert_by
  In-insert_by_self leq x [] = inl refl
  In-insert_by_self leq x (y ∷ ys) = elim (Bool-cases (leq x y)) [
    | inl e ↦ rw e (inl refl)
    | inr e ↦ rw e (inr (In-insert_by_self leq x ys))
  ]

  In-insert_by : (leq : A → A → Bool) (x y : A) (xs : List A) → In x xs → In x (insert_by leq y xs)
  unfolding insert_by
  In-insert_by leq x y [] i = absurd i
  In-insert_by leq x y (z ∷ zs) i = elim (Bool-cases (leq y z)) [
    | inl e ↦ rw e (inr i)
    | inr e ↦ rw e (elim i [ inl p ↦ inl p | inr q ↦ inr (In-insert_by leq x y zs q) ])
  ]

  pub In-sort_by : (leq : A → A → Bool) (x : A) (xs : List A) → In x xs → In x (sort_by leq xs)
  unfolding sort_by
  In-sort_by leq x [] i = i
  In-sort_by leq x (y ∷ ys) (inl e) = rw (← e) (In-insert_by_self leq x (sort_by leq ys))
  In-sort_by leq x (y ∷ ys) (inr i) = In-insert_by leq x y (sort_by leq ys) (In-sort_by leq x ys i)

  pub In-map : {B : Type 0} (f : A → B) (x : A) (xs : List A) → In x xs → In (f x) (map f xs)
  In-map f x [] i = absurd i
  In-map f x (y ∷ ys) (inl e) = inl (ap f e)
  In-map f x (y ∷ ys) (inr i) = inr (In-map f x ys i)

  module _ (leq : A → A → Bool) (o : IsOrder leq) where
    Sorted-insert_by : (x : A) (xs : List A) → Sorted leq xs → Sorted leq (insert_by leq x xs)
    unfolding insert_by
    Sorted-insert_by x [] s = (tt, tt)
    Sorted-insert_by x (y ∷ ys) s = elim (Bool-cases (leq x y)) [
      | inl e ↦ rw e (
        (e, All-imp (λ z. leq y z ≡ true) (λ z. leq x z ≡ true) ys (λ z h. o.trans x y z e h) s.0),
        s,
      )
      | inr e ↦ rw e (
        All-insert_by (λ z. leq y z ≡ true) leq x ys (o.total x y e) s.0,
        Sorted-insert_by x ys s.1,
      )
    ]

    pub Sorted-sort_by : (xs : List A) → Sorted leq (sort_by leq xs)
    unfolding sort_by
    Sorted-sort_by [] = tt
    Sorted-sort_by (x ∷ xs) = Sorted-insert_by x (sort_by leq xs) (Sorted-sort_by xs)

  pub Sorted-filter_by :
      (leq : A → A → Bool) (test : A → Bool) (xs : List A)
      → Sorted leq xs
      → Sorted leq (filter_by test xs)
  unfolding filter_by
  Sorted-filter_by leq test [] s = tt
  Sorted-filter_by leq test (x ∷ xs) s = elim (Bool-cases (test x)) [
    | inl e ↦
        rw e (All-filter_by (λ y. leq x y ≡ true) test xs s.0, Sorted-filter_by leq test xs s.1)
    | inr e ↦ rw e (Sorted-filter_by leq test xs s.1)
  ]

  -- An element of an ordered list is among the first `n`, or there are `n` of them and none is later.
  pub take-cut :
      (leq : A → A → Bool) (n : ℕ) (x : A) (xs : List A)
      → Sorted leq xs
      → In x xs
      → In x (take n xs) ⊎ ((length (take n xs) ≡ n) × All (λ y. leq y x ≡ true) (take n xs))
  take-cut leq zero x xs s i = inr (refl, tt)
  take-cut leq (suc n) x [] s i = absurd i
  take-cut leq (suc n) x (y ∷ ys) s (inl e) = inl (inl e)
  take-cut leq (suc n) x (y ∷ ys) s (inr i) = elim (take-cut leq n x ys s.1 i) [
    | inl here ↦ inl (inr here)
    | inr (full, earlier) ↦ inr (ap suc full, (All-In (λ z. leq y z ≡ true) x ys s.0 i, earlier))
  ]
