-- ===== src/Prelude/Sorting.antt =====
-- `sort.Slice` by a text that each element has, `sort.Strings` among it.
use Prim.Native.String.{String}
use mathlib.Core.List.{List, [], ◌∷◌}
use immich_go_server.Prelude.Tests.{if◌then◌else◌}
use immich_go_server.Prelude.Text.{less}

module _ {A : Type 0} (key : A → String) where
  abbrev sorted_in : A → List A → List A
  sorted_in x [] = x ∷ []
  sorted_in x (y ∷ ys) =
      let further = sorted_in x ys in if less (key y) (key x) then y ∷ further else x ∷ y ∷ ys

  abbrev pub sort_by : List A → List A
  sort_by [] = []
  sort_by (x ∷ xs) = sorted_in x (sort_by xs)
