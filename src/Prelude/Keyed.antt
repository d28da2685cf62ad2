-- ===== src/Prelude/Keyed.antt =====
-- A table as the list of its rows, each with a numeric primary key, and the statements that the
-- repositories send: `SELECT … WHERE id = k`, `UPDATE … WHERE id = k`, `UPDATE … WHERE test`.
use Prim.Native.Nat.{ℕ, zero, suc}
use mathlib.Core.Path.{◌≡◌, refl, sym, subst}
use mathlib.Core.Logic.{◌≢◌, inl, inr}
use mathlib.Core.Bool.{Bool, true}
use mathlib.Core.Option.{Option, none, some}
use mathlib.Core.List.{List, [], ◌∷◌, map}
use native.Mathlib.Omega.{arith}
use incident_intelligence_pl.Prelude.Tests.{◌==◌, if◌then◌else◌, Bool-cases, Option-cases, is_some}
use incident_intelligence_pl.Prelude.Lists.{All, filter_by, insert_by, sort_by, take}

module _ {ℓ} {R : Type ℓ} (key : R → ℕ) where
  unfoldable pub find_row : ℕ → List R → Option R
  find_row k [] = none
  find_row k (r ∷ rs) = if key r == k then some r else find_row k rs

  unfoldable pub update_row : ℕ → (R → R) → List R → List R
  update_row k f [] = []
  update_row k f (r ∷ rs) = (if key r == k then f r else r) ∷ update_row k f rs

  -- The primary key constraint.
  abbrev pub Distinct : List R → Type 0
  Distinct [] = Unit
  Distinct (r ∷ rs) = All (λ s. key s ≢ key r) rs × Distinct rs

  -- A statement keeps the keys of the rows.
  abbrev pub KeepsKey : (R → R) → Type ℓ
  KeepsKey f = (r : R) → key (f r) ≡ key r

  pub find_row-cons :
      (k : ℕ) (r : R) (rs : List R)
      → find_row k (r ∷ rs) ≡ (if key r == k then some r else find_row k rs)
  unfolding find_row
  find_row-cons k r rs = refl

  pub key-find_row : (k : ℕ) (rs : List R) (r : R) → find_row k rs ≡ some r → key r ≡ k
  unfolding find_row
  key-find_row k [] r h = ground arith
  key-find_row k (x ∷ rs) r h = ground (arith, key-find_row k rs r)

  pub find_row-update_row_self :
      (k : ℕ) (f : R → R) (rs : List R) (r : R)
      → KeepsKey f
      → find_row k rs ≡ some r
      → find_row k (update_row k f rs) ≡ some (f r)
  unfolding find_row update_row
  find_row-update_row_self k f [] r keep h = ground arith
  find_row-update_row_self k f (x ∷ rs) r keep h =
      ground (arith, keep x, find_row-update_row_self k f rs r keep)

  pub find_row-update_row_ne :
      (j k : ℕ) (f : R → R) (rs : List R)
      → KeepsKey f
      → j ≢ k
      → find_row j (update_row k f rs) ≡ find_row j rs
  unfolding find_row update_row
  find_row-update_row_ne j k f [] keep ne = refl
  find_row-update_row_ne j k f (x ∷ rs) keep ne =
      ground (arith, keep x, find_row-update_row_ne j k f rs keep ne)

  pub find_row-update_row-none :
      (j k : ℕ) (f : R → R) (rs : List R)
      → KeepsKey f
      → find_row j rs ≡ none
      → find_row j (update_row k f rs) ≡ none
  unfolding find_row update_row
  find_row-update_row-none j k f [] keep h = refl
  find_row-update_row-none j k f (x ∷ rs) keep h =
      ground (arith, keep x, find_row-update_row-none j k f rs keep)

  -- An update loses no row.
  pub find_row-update_row_some :
      (j k : ℕ) (f : R → R) (rs : List R)
      → KeepsKey f
      → is_some (find_row j rs) ≡ true
      → is_some (find_row j (update_row k f rs)) ≡ true
  unfolding find_row update_row
  find_row-update_row_some j k f [] keep h = h
  find_row-update_row_some j k f (x ∷ rs) keep h =
      ground (arith, keep x, find_row-update_row_some j k f rs keep)

  pub find_row-map-none :
      (j : ℕ) (f : R → R) (rs : List R)
      → KeepsKey f
      → find_row j rs ≡ none
      → find_row j (map f rs) ≡ none
  unfolding find_row
  find_row-map-none j f [] keep h = refl
  find_row-map-none j f (x ∷ rs) keep h = ground (arith, keep x, find_row-map-none j f rs keep)

  pub find_row-map :
      (j : ℕ) (f : R → R) (rs : List R) (r : R)
      → KeepsKey f
      → find_row j rs ≡ some r
      → find_row j (map f rs) ≡ some (f r)
  unfolding find_row
  find_row-map j f [] r keep h = ground arith
  find_row-map j f (x ∷ rs) r keep h = ground (arith, keep x, find_row-map j f rs r keep)

  pub find_row-map_inv :
      (j : ℕ) (f : R → R) (rs : List R) {r : R}
      → KeepsKey f
      → find_row j (map f rs) ≡ some r
      → (r₀ : R) × (find_row j rs ≡ some r₀) × (f r₀ ≡ r)
  find_row-map_inv j f rs keep h = elim (Option-cases (find_row j rs)) [
    | inl e ↦ absurd (ground (arith, find_row-map-none j f rs keep e))
    | inr (r₀, e) ↦ (r₀, e, ground (arith, find_row-map j f rs r₀ keep e))
  ]

  pub All-update_row :
      (P : R → Type 0) (k : ℕ) (f : R → R) (rs : List R)
      → ((r : R) → P r → key r ≡ k → P (f r))
      → All P rs
      → All P (update_row k f rs)
  unfolding update_row
  All-update_row P k f [] step h = tt
  All-update_row P k f (x ∷ rs) step h =
      ground (arith, step x h.0, All-update_row P k f rs step h.1)

  key_ne-update_row :
      (n k : ℕ) (f : R → R) (rs : List R)
      → KeepsKey f
      → All (λ s. key s ≢ n) rs
      → All (λ s. key s ≢ n) (update_row k f rs)
  key_ne-update_row n k f rs keep =
      All-update_row (λ s. key s ≢ n) k f rs (λ r h _ e. h (ground (arith, keep r)))

  pub Distinct-update_row :
      (k : ℕ) (f : R → R) (rs : List R) → KeepsKey f → Distinct rs → Distinct (update_row k f rs)
  unfolding update_row
  Distinct-update_row k f [] keep d = tt
  Distinct-update_row k f (x ∷ rs) keep d = elim (Bool-cases (key x == k)) [
    | inl hit ↦
        rw (hit, keep)
          (key_ne-update_row (key x) k f rs keep d.0, Distinct-update_row k f rs keep d.1)
    | inr miss ↦
        rw miss (key_ne-update_row (key x) k f rs keep d.0, Distinct-update_row k f rs keep d.1)
  ]

  key_ne-map :
      (n : ℕ) (f : R → R) (rs : List R)
      → KeepsKey f
      → All (λ s. key s ≢ n) rs
      → All (λ s. key s ≢ n) (map f rs)
  key_ne-map n f [] keep h = tt
  key_ne-map n f (x ∷ rs) keep h = (rw keep h.0, key_ne-map n f rs keep h.1)

  pub Distinct-map : (f : R → R) (rs : List R) → KeepsKey f → Distinct rs → Distinct (map f rs)
  Distinct-map f [] keep d = tt
  Distinct-map f (x ∷ rs) keep d =
      (rw keep (key_ne-map (key x) f rs keep d.0), Distinct-map f rs keep d.1)

  Found-cons :
      (x : R) (table rs : List R)
      → All (λ s. key s ≢ key x) rs
      → All (λ r. find_row (key r) table ≡ some r) rs
      → All (λ r. find_row (key r) (x ∷ table) ≡ some r) rs
  unfolding find_row
  Found-cons x table [] d h = tt
  Found-cons x table (r ∷ rs) d h = (ground (arith, d.0), Found-cons x table rs d.1 h.1)

  -- Every row of a table is the row that its key finds.
  pub Distinct-found :
      (table : List R) → Distinct table → All (λ r. find_row (key r) table ≡ some r) table
  unfolding find_row
  Distinct-found [] d = tt
  Distinct-found (x ∷ rs) d = (ground arith, Found-cons x rs rs d.0 (Distinct-found rs d.1))

  pub All-map :
      (P : R → Type 0) (f : R → R) (rs : List R)
      → ((r : R) → P r → P (f r))
      → All P rs
      → All P (map f rs)
  All-map P f [] step h = tt
  All-map P f (x ∷ rs) step h = (step x h.0, All-map P f rs step h.1)

  update_row_absent :
      (k : ℕ) (f : R → R) (rs : List R) → All (λ s. key s ≢ k) rs → update_row k f rs ≡ rs
  unfolding update_row
  update_row_absent k f [] d = refl
  update_row_absent k f (x ∷ rs) d = ground (arith, d.0, update_row_absent k f rs d.1)

  -- An update of one row needs only that the found row is turned into a good one.
  pub All-update_found :
      (P : R → Type 0) (k : ℕ) (f : R → R) (rs : List R) {current : R}
      → Distinct rs
      → find_row k rs ≡ some current
      → P (f current)
      → All P rs
      → All P (update_row k f rs)
  unfolding update_row find_row
  All-update_found P k f [] d found good h = tt
  All-update_found P k f (x ∷ rs) {current} d found good h = elim (Bool-cases (key x == k)) [
    | inl e ↦
        let hit : key x ≡ k = ground arith in
        let same : x ≡ current = ground arith in
        rw e (
          subst (λ r. P (f r)) (sym same) good,
          rw (update_row_absent k f rs (subst (λ n. All (λ s. key s ≢ n) rs) hit d.0)) h.1,
        )
    | inr e ↦ rw e (h.0, All-update_found P k f rs d.1 (ground arith) good h.1)
  ]

  pub find_row-none_ne : (k : ℕ) (rs : List R) → find_row k rs ≡ none → All (λ s. key s ≢ k) rs
  unfolding find_row
  find_row-none_ne k [] h = tt
  find_row-none_ne k (x ∷ rs) h = elim (Bool-cases (key x == k)) [
    | inl e ↦ absurd (ground arith)
    | inr e ↦ (ground arith, find_row-none_ne k rs (ground arith))
  ]

  pub All-find_row :
      (P : R → Type 0) (k : ℕ) (rs : List R) (r : R) → All P rs → find_row k rs ≡ some r → P r
  unfolding find_row
  All-find_row P k [] r h found = ground arith
  All-find_row P k (x ∷ rs) r h found = elim (Bool-cases (key x == k)) [
    | inl e ↦ subst P (ground arith) h.0
    | inr e ↦ All-find_row P k rs r h.1 (ground arith)
  ]

-- What `WHERE`, `ORDER BY` and `LIMIT` keep.
module _ {ℓ κ} {A : Type ℓ} (P : A → Type κ) where
  pub All-filter_by : (test : A → Bool) (xs : List A) → All P xs → All P (filter_by test xs)
  unfolding filter_by
  All-filter_by test [] h = tt
  All-filter_by test (x ∷ xs) h = elim (Bool-cases (test x)) [
    | inl e ↦ rw e (h.0, All-filter_by test xs h.1)
    | inr e ↦ rw e (All-filter_by test xs h.1)
  ]

  pub All-insert_by :
      (leq : A → A → Bool) (x : A) (xs : List A) → P x → All P xs → All P (insert_by leq x xs)
  unfolding insert_by
  All-insert_by leq x [] p h = (p, tt)
  All-insert_by leq x (y ∷ ys) p h = elim (Bool-cases (leq x y)) [
    | inl e ↦ rw e (p, h)
    | inr e ↦ rw e (h.0, All-insert_by leq x ys p h.1)
  ]

  pub All-sort_by : (leq : A → A → Bool) (xs : List A) → All P xs → All P (sort_by leq xs)
  unfolding sort_by
  All-sort_by leq [] h = tt
  All-sort_by leq (x ∷ xs) h = All-insert_by leq x (sort_by leq xs) h.0 (All-sort_by leq xs h.1)

  pub All-take : (n : ℕ) (xs : List A) → All P xs → All P (take n xs)
  All-take zero xs h = tt
  All-take (suc n) [] h = tt
  All-take (suc n) (x ∷ xs) h = (h.0, All-take n xs h.1)

module _ {ℓ} {A : Type ℓ} where
  pub All-imp : (P Q : A → Type 0) (xs : List A) → ((x : A) → P x → Q x) → All P xs → All Q xs
  All-imp P Q [] f h = tt
  All-imp P Q (x ∷ xs) f h = (f x h.0, All-imp P Q xs f h.1)

  pub All-and : (P Q : A → Type 0) (xs : List A) → All P xs → All Q xs → All (λ x. P x × Q x) xs
  All-and P Q [] p q = tt
  All-and P Q (x ∷ xs) p q = ((p.0, q.0), All-and P Q xs p.1 q.1)

  pub filter_by-holds :
      (test : A → Bool) (xs : List A) → All (λ x. test x ≡ true) (filter_by test xs)
  unfolding filter_by
  filter_by-holds test [] = tt
  filter_by-holds test (x ∷ xs) = elim (Bool-cases (test x)) [
    | inl e ↦ rw e (e, filter_by-holds test xs)
    | inr e ↦ rw e (filter_by-holds test xs)
  ]

module _ {ℓ} {R : Type ℓ} (key : R → ℕ) where
  pub Distinct-filter_by :
      (test : R → Bool) (rs : List R) → Distinct key rs → Distinct key (filter_by test rs)
  unfolding filter_by
  Distinct-filter_by test [] d = tt
  Distinct-filter_by test (x ∷ rs) d = elim (Bool-cases (test x)) [
    | inl e ↦ rw e (All-filter_by (λ s. key s ≢ key x) test rs d.0, Distinct-filter_by test rs d.1)
    | inr e ↦ rw e (Distinct-filter_by test rs d.1)
  ]

  Distinct-insert_by :
      (leq : R → R → Bool) (x : R) (rs : List R)
      → All (λ s. key s ≢ key x) rs
      → Distinct key rs
      → Distinct key (insert_by leq x rs)
  unfolding insert_by
  Distinct-insert_by leq x [] h d = (tt, tt)
  Distinct-insert_by leq x (y ∷ ys) h d = elim (Bool-cases (leq x y)) [
    | inl e ↦ rw e (h, d)
    | inr e ↦ rw e (
      All-insert_by (λ s. key s ≢ key y) leq x ys (λ p. h.0 (sym p)) d.0,
      Distinct-insert_by leq x ys h.1 d.1,
    )
  ]

  pub Distinct-sort_by :
      (leq : R → R → Bool) (rs : List R) → Distinct key rs → Distinct key (sort_by leq rs)
  unfolding sort_by
  Distinct-sort_by leq [] d = tt
  Distinct-sort_by leq (x ∷ rs) d =
      Distinct-insert_by leq x (sort_by leq rs) (All-sort_by (λ s. key s ≢ key x) leq rs d.0)
        (Distinct-sort_by leq rs d.1)

  pub Distinct-take : (n : ℕ) (rs : List R) → Distinct key rs → Distinct key (take n rs)
  Distinct-take zero rs d = tt
  Distinct-take (suc n) [] d = tt
  Distinct-take (suc n) (x ∷ rs) d =
      (All-take (λ s. key s ≢ key x) n rs d.0, Distinct-take n rs d.1)
