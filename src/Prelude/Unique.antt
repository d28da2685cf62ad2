-- ===== src/Prelude/Unique.antt =====
-- What an order determines: the first of the members, and the one sorted list of them.
use mathlib.Core.Path.{◌≡◌, refl, sym, ap, ◌∙◌, subst}
use mathlib.Core.Logic.{◌⊎◌, inl, inr}
use mathlib.Core.Bool.{Bool, true, false}
use mathlib.Core.Option.{Option, none, some}
use mathlib.Core.List.{List, [], ◌∷◌, map}
use incident_intelligence_pl.Prelude.Tests.{Bool-cases}
use incident_intelligence_pl.Prelude.Lists.{All, filter_by, insert_by, sort_by}
use incident_intelligence_pl.Prelude.Ordered.{
  In, Sorted, IsOrder, All-In, In-sort_by, Sorted-sort_by,
}

module _ {A : Type 0} where
  abbrev pub first : List A → Option A
  first [] = none
  first (x ∷ xs) = some x

  abbrev pub Within : List A → List A → Type 0
  Within xs ys = (x : A) → In x xs → In x ys

  -- No two members of the list are equally early but different.
  abbrev pub Separates : (A → A → Bool) → List A → Type 0
  Separates leq xs = (x y : A) → In x xs → In y xs → leq x y ≡ true → leq y x ≡ true → x ≡ y

  abbrev pub NoRepeats : List A → Type 0
  NoRepeats [] = Unit
  NoRepeats (x ∷ xs) = (In x xs → ⊥) × NoRepeats xs

  insert_by-In :
      (leq : A → A → Bool) (x y : A) (xs : List A) → In x (insert_by leq y xs) → In x (y ∷ xs)
  unfolding insert_by
  insert_by-In leq x y [] i = i
  insert_by-In leq x y (z ∷ zs) i = elim (Bool-cases (leq y z)) [
    | inl e ↦ rw e at i
    | inr e ↦ later (insert_by-In leq x y zs) (rw e at i)
  ]
    where
      later :
          (In x (insert_by leq y zs) → In x (y ∷ zs))
          → In x (z ∷ insert_by leq y zs)
          → In x (y ∷ z ∷ zs)
      later ih (inl p) = inr (inl p)
      later ih (inr q) = elim (ih q) [ inl p ↦ inl p | inr r ↦ inr (inr r) ]

  pub sort_by-In : (leq : A → A → Bool) (x : A) (xs : List A) → In x (sort_by leq xs) → In x xs
  unfolding sort_by
  sort_by-In leq x [] i = i
  sort_by-In leq x (y ∷ ys) i = elim (insert_by-In leq x y (sort_by leq ys) i) [
    | inl e ↦ inl e
    | inr j ↦ inr (sort_by-In leq x ys j)
  ]

  first-eq :
      (leq : A → A → Bool) (xs ys : List A)
      → Separates leq xs
      → Sorted leq xs
      → Sorted leq ys
      → Within xs ys
      → Within ys xs
      → first xs ≡ first ys
  first-eq leq [] [] sep s t to from = refl
  first-eq leq [] (y ∷ ys) sep s t to from = absurd (from y (inl refl))
  first-eq leq (x ∷ xs) [] sep s t to from = absurd (to x (inl refl))
  first-eq leq (x ∷ xs) (y ∷ ys) sep s t to from = ap some (elim (to x (inl refl)) [
    | inl e ↦ e
    | inr i ↦ elim (from y (inl refl)) [
      | inl e ↦ sym e
      | inr j ↦
          sep x y (inl refl) (inr j) (All-In (λ z. leq x z ≡ true) y xs s.0 j)
            (All-In (λ z. leq y z ≡ true) x ys t.0 i)
    ]
  ])

  pub All-of : (P : A → Type 0) (xs : List A) → ((x : A) → In x xs → P x) → All P xs
  All-of P [] h = tt
  All-of P (x ∷ xs) h = (h x (inl refl), All-of P xs (λ y i. h y (inr i)))

  -- A list with members starts with its least one, if it is sorted.
  pub first-least :
      (leq : A → A → Bool) (x : A) (xs : List A)
      → Sorted leq xs
      → In x xs
      → (y : A) × (first xs ≡ some y) × In y xs × All (λ z. (z ≡ y) ⊎ (leq y z ≡ true)) xs
  first-least leq x [] s i = absurd i
  first-least leq x (y ∷ ys) s i = (
    y,
    refl,
    inl refl,
    All-of (λ z. (z ≡ y) ⊎ (leq y z ≡ true)) (y ∷ ys)
        (λ z j. elim j [ inl e ↦ inl e | inr k ↦ inr (All-In (λ w. leq y w ≡ true) z ys s.0 k) ]),
  )

  pub filter_by-none :
      (test : A → Bool) (xs : List A) → All (λ x. test x ≡ false) xs → filter_by test xs ≡ []
  unfolding filter_by
  filter_by-none test [] h = refl
  filter_by-none test (x ∷ xs) h = rw (h.0, filter_by-none test xs h.1) refl

  pub filter_by-In :
      (test : A → Bool) (x : A) (xs : List A) → In x (filter_by test xs) → In x xs × (test x ≡ true)
  unfolding filter_by
  filter_by-In test x [] i = absurd i
  filter_by-In test x (y ∷ ys) i = elim (Bool-cases (test y)) [
    | inl e ↦
        let j : In x (y ∷ filter_by test ys) = rw e at i in
        elim j [
          | inl p ↦ (inl p, ap test p ∙ e)
          | inr q ↦ let (r, t) = filter_by-In test x ys q in (inr r, t)
        ]
    | inr e ↦ let (r, t) = filter_by-In test x ys (rw e at i) in (inr r, t)
  ]

  pub map-In :
      {B : Type 0} (f : B → A) (y : A) (xs : List B)
      → In y (map f xs)
      → (x : B) × In x xs × (y ≡ f x)
  map-In f y [] i = absurd i
  map-In f y (x ∷ xs) (inl e) = (x, inl refl, e)
  map-In f y (x ∷ xs) (inr i) = let (z, j, e) = map-In f y xs i in (z, inr j, e)

  -- The first of a sort is the same for lists with the same members.
  pub first-sort_by :
      (leq : A → A → Bool) (xs ys : List A)
      → IsOrder leq
      → Separates leq xs
      → Within xs ys
      → Within ys xs
      → first (sort_by leq xs) ≡ first (sort_by leq ys)
  first-sort_by leq xs ys o sep to from =
      first-eq leq (sort_by leq xs) (sort_by leq ys)
        (λ x y i j. sep x y (sort_by-In leq x xs i) (sort_by-In leq y xs j))
        (Sorted-sort_by leq o xs) (Sorted-sort_by leq o ys)
        (λ x i. In-sort_by leq x ys (to x (sort_by-In leq x xs i)))
        (λ x i. In-sort_by leq x xs (from x (sort_by-In leq x ys i)))

  behind :
      (x y : A) (xs ys : List A) → x ≡ y → (In x xs → ⊥) → Within (x ∷ xs) (y ∷ ys) → Within xs ys
  behind x y xs ys e once to z i = elim (to z (inr i)) [
    | inl p ↦ absurd (once (subst (λ w. In w xs) (p ∙ sym e) i))
    | inr j ↦ j
  ]

  pub Sorted-unique :
      (leq : A → A → Bool) (xs ys : List A)
      → Separates leq xs
      → Sorted leq xs
      → Sorted leq ys
      → NoRepeats xs
      → NoRepeats ys
      → Within xs ys
      → Within ys xs
      → xs ≡ ys
  Sorted-unique leq [] [] sep s t n m to from = refl
  Sorted-unique leq [] (y ∷ ys) sep s t n m to from = absurd (from y (inl refl))
  Sorted-unique leq (x ∷ xs) [] sep s t n m to from = absurd (to x (inl refl))
  Sorted-unique leq (x ∷ xs) (y ∷ ys) sep s t n m to from =
      let e : x ≡ y = from_some (first-eq leq (x ∷ xs) (y ∷ ys) sep s t to from) in
      let rest : xs ≡ ys =
        Sorted-unique leq xs ys (λ a b i j. sep a b (inr i) (inr j)) s.1 t.1 n.1 m.1
          (behind x y xs ys e n.0 to) (behind y x ys xs (sym e) m.0 from) in
      ap2 e rest
    where
      from_some : {a b : A} → some a ≡ some b → a ≡ b
      from_some h = cc

      ap2 : {a b : A} {us vs : List A} → a ≡ b → us ≡ vs → (a ∷ us) ≡ (b ∷ vs)
      ap2 e h = rw (e, h) refl

  NoRepeats-insert_by :
      (leq : A → A → Bool) (x : A) (xs : List A)
      → (In x xs → ⊥)
      → NoRepeats xs
      → NoRepeats (insert_by leq x xs)
  unfolding insert_by
  NoRepeats-insert_by leq x [] once n = (once, tt)
  NoRepeats-insert_by leq x (y ∷ ys) once n = elim (Bool-cases (leq x y)) [
    | inl e ↦ rw e (once, n)
    | inr e ↦ rw e (
      λ i. elim (insert_by-In leq y x ys i) [ inl p ↦ once (inl (sym p)) | inr j ↦ n.0 j ],
      NoRepeats-insert_by leq x ys (λ i. once (inr i)) n.1,
    )
  ]

  pub NoRepeats-sort_by :
      (leq : A → A → Bool) (xs : List A) → NoRepeats xs → NoRepeats (sort_by leq xs)
  unfolding sort_by
  NoRepeats-sort_by leq [] n = n
  NoRepeats-sort_by leq (x ∷ xs) n =
      NoRepeats-insert_by leq x (sort_by leq xs) (λ i. n.0 (sort_by-In leq x xs i))
        (NoRepeats-sort_by leq xs n.1)

  -- Lists with the same members, none of them twice, have the same sort.
  pub sort_by_unique :
      (leq : A → A → Bool) (xs ys : List A)
      → IsOrder leq
      → Separates leq xs
      → NoRepeats xs
      → NoRepeats ys
      → Within xs ys
      → Within ys xs
      → sort_by leq xs ≡ sort_by leq ys
  sort_by_unique leq xs ys o sep n m to from =
      Sorted-unique leq (sort_by leq xs) (sort_by leq ys)
        (λ x y i j. sep x y (sort_by-In leq x xs i) (sort_by-In leq y xs j))
        (Sorted-sort_by leq o xs) (Sorted-sort_by leq o ys) (NoRepeats-sort_by leq xs n)
        (NoRepeats-sort_by leq ys m) (λ x i. In-sort_by leq x ys (to x (sort_by-In leq x xs i)))
        (λ x i. In-sort_by leq x xs (from x (sort_by-In leq x ys i)))
