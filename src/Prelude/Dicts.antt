-- ===== src/Prelude/Dicts.antt =====
-- Python's `dict` with `str` keys, as far as the program uses it: `d.get(k)` and `d[k] = v`.
use Prim.Native.String.{String}
use mathlib.Core.Path.{◌≡◌, refl}
use mathlib.Core.List.{List, [], ◌∷◌}
use mathlib.Core.Option.{Option, none, some}
use native.Mathlib.Omega.{arith}
use text.Mathlib.Text.{◌==◌}
use text.Mathlib.TextEquality.{eq_iff}
use incident_intelligence_pl.Prelude.Tests.{if◌then◌else◌}

abbrev pub Dict : Type 0 → Type 0
Dict V = List (String × V)

module _ {V : Type 0} where
  unfoldable pub get : String → Dict V → Option V
  get key [] = none
  get key ((k, v) ∷ entries) = if k == key then some v else get key entries

  unfoldable pub put : String → V → Dict V → Dict V
  put key value [] = (key, value) ∷ []
  put key value ((k, v) ∷ entries) =
      if k == key then (key, value) ∷ entries else (k, v) ∷ put key value entries

  pub get-put :
      (key other : String) (value : V) (d : Dict V)
      → get other (put key value d) ≡ (if key == other then some value else get other d)
  unfolding get put
  get-put key other value [] = refl
  get-put key other value ((k, v) ∷ entries) =
      ground
        (arith, eq_iff k key, eq_iff k other, eq_iff key other, get-put key other value entries)
