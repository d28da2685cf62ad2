-- ===== src/Prelude/TextOrder.antt =====
-- Python's order of `str`: by code points, the shorter of two that agree first.
use Prim.Native.Nat.{ℕ}
use Prim.Native.Char.{Char, code}
use Prim.Native.String.{String}
use mathlib.Core.Path.{◌≡◌, refl}
use mathlib.Core.Bool.{Bool, true, false, ◌&&◌, ◌||◌}
use mathlib.Core.List.{List, [], ◌∷◌}
use native.Mathlib.Omega.{arith}
use text.Mathlib.TextEquality.{Char-path}
use incident_intelligence_pl.Prelude.Tests.{◌==◌, ltb}
use incident_intelligence_pl.Prelude.Text.{codes}

unfoldable pub codes_leb : List ℕ → List ℕ → Bool
codes_leb [] t = true
codes_leb (c ∷ s) [] = false
codes_leb (c ∷ s) (d ∷ t) = ltb c d || (c == d && codes_leb s t)

codes_leb_trans :
    (s t u : List ℕ) → codes_leb s t ≡ true → codes_leb t u ≡ true → codes_leb s u ≡ true
unfolding codes_leb
codes_leb_trans [] t u p q = refl
codes_leb_trans (c ∷ s) [] u p q = absurd (ground arith)
codes_leb_trans (c ∷ s) (d ∷ t) [] p q = absurd (ground arith)
codes_leb_trans (c ∷ s) (d ∷ t) (e ∷ u) p q = ground (arith, codes_leb_trans s t u)

codes_leb-total : (s t : List ℕ) → codes_leb s t ≡ false → codes_leb t s ≡ true
unfolding codes_leb
codes_leb-total [] t p = absurd (ground arith)
codes_leb-total (c ∷ s) [] p = refl
codes_leb-total (c ∷ s) (d ∷ t) p = ground (arith, codes_leb-total s t)

codes_leb-antisym : (s t : List ℕ) → codes_leb s t ≡ true → codes_leb t s ≡ true → s ≡ t
unfolding codes_leb
codes_leb-antisym [] [] p q = refl
codes_leb-antisym [] (d ∷ t) p q = absurd (ground arith)
codes_leb-antisym (c ∷ s) [] p q = absurd (ground arith)
codes_leb-antisym (c ∷ s) (d ∷ t) p q = ground (arith, codes_leb-antisym s t)

codes_inj : (s t : String) → codes s ≡ codes t → s ≡ t
codes_inj String.[] String.[] e = refl
codes_inj String.[] (String.◌∷◌ d t) e = absurd (ground arith)
codes_inj (String.◌∷◌ c s) String.[] e = absurd (ground arith)
codes_inj (String.◌∷◌ c s) (String.◌∷◌ d t) e =
    let head : code c ≡ code d = ground arith in
    let rest : codes s ≡ codes t = ground arith in both (Char-path c d head) (codes_inj s t rest)
  where
    both : {a b : Char} {u v : String} → a ≡ b → u ≡ v → String.◌∷◌ a u ≡ String.◌∷◌ b v
    both p q = rw (p, q) refl

unfoldable pub text_leb : String → String → Bool
text_leb s t = codes_leb (codes s) (codes t)

pub text_leb_trans :
    (s t u : String) → text_leb s t ≡ true → text_leb t u ≡ true → text_leb s u ≡ true
unfolding text_leb
text_leb_trans s t u p q = codes_leb_trans (codes s) (codes t) (codes u) p q

pub text_leb-total : (s t : String) → text_leb s t ≡ false → text_leb t s ≡ true
unfolding text_leb
text_leb-total s t p = codes_leb-total (codes s) (codes t) p

pub text_leb-antisym : (s t : String) → text_leb s t ≡ true → text_leb t s ≡ true → s ≡ t
unfolding text_leb
text_leb-antisym s t p q = codes_inj s t (codes_leb-antisym (codes s) (codes t) p q)
