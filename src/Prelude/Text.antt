-- ===== src/Prelude/Text.antt =====
-- The order of Go strings. Go compares bytes; on UTF-8 text that is the order of the code points.
use Prim.Native.Nat.{ℕ}
use Prim.Native.Char.{code}
use Prim.Native.String.{String, ◌++◌}
use mathlib.Core.Path.{◌≡◌, refl, ap, ◌∙◌}
use text.Mathlib.TextEquality.{Char-path}
use mathlib.Core.Bool.{Bool, true, false}
use mathlib.Core.List.{List, [], ◌∷◌}
use native.Mathlib.Omega.{arith}
use immich_go_server.Prelude.Tests.{ltb, eqb, if◌then◌else◌}

abbrev pub codes : String → List ℕ
codes String.[] = []
codes (String.◌∷◌ c s) = code c ∷ codes s

codes_less : List ℕ → List ℕ → Bool
codes_less [] [] = false
codes_less [] (d ∷ t) = true
codes_less (c ∷ s) [] = false
codes_less (c ∷ s) (d ∷ t) = if ltb c d then true else if eqb c d then codes_less s t else false

codes_less_irrefl : (s : List ℕ) → codes_less s s ≡ false
unfolding codes_less
codes_less_irrefl [] = refl
codes_less_irrefl (c ∷ s) = ground (arith, codes_less_irrefl s)

codes_less_trans :
    (r s t : List ℕ) → codes_less r s ≡ true → codes_less s t ≡ true → codes_less r t ≡ true
unfolding codes_less
codes_less_trans [] [] t h k = cc
codes_less_trans [] (d ∷ s) [] h k = cc
codes_less_trans [] (d ∷ s) (e ∷ t) h k = refl
codes_less_trans (c ∷ r) [] t h k = cc
codes_less_trans (c ∷ r) (d ∷ s) [] h k = cc
codes_less_trans (c ∷ r) (d ∷ s) (e ∷ t) h k = ground (arith, codes_less_trans r s t)

-- Go's `s < t`.
unfoldable pub less : String → String → Bool
unfolding codes_less
less s t = codes_less (codes s) (codes t)

pub less_irrefl : (s : String) → less s s ≡ false
unfolding less
less_irrefl s = codes_less_irrefl (codes s)

pub less_trans : (r s t : String) → less r s ≡ true → less s t ≡ true → less r t ≡ true
unfolding less
less_trans r s t = codes_less_trans (codes r) (codes s) (codes t)

codes_total :
    (s t : String)
    → codes_less (codes s) (codes t) ≡ false
    → codes_less (codes t) (codes s) ≡ false
    → s ≡ t
unfolding codes_less
codes_total String.[] String.[] h k = refl
codes_total String.[] (String.◌∷◌ d t) h k = cc
codes_total (String.◌∷◌ c s) String.[] h k = cc
codes_total (String.◌∷◌ c s) (String.◌∷◌ d t) h k =
    let same : code c ≡ code d = ground (arith, h, k) in
    ap (λ e. String.◌∷◌ e s) (Char-path c d same)
    ∙ ap (String.◌∷◌ d) (codes_total s t (ground (arith, h, same)) (ground (arith, k, same)))

-- Of two different texts one is less.
pub less_total : (s t : String) → less s t ≡ false → less t s ≡ false → s ≡ t
unfolding less
less_total s t h k = codes_total s t h k

-- Go's `s + t`.
abbrev pub concat : String → String → String
concat s t = s ++ t
