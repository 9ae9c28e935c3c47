-- ===== src/Prelude/Decimal.antt =====
-- Go's `strconv` on the codes of a text: 45 is `-`, 43 is `+`, and 48 to 57 are the digits.
use Prim.Native.Nat.{ℕ, zero, suc, ◌+◌, ◌-◌, ◌*◌, ◌/◌, ◌%◌, ◌^◌, ◌≤◌, ◌<◌}
use mathlib.Core.Path.{◌≡◌, refl, ap, ◌∙◌}
use mathlib.Core.Logic.{◌≢◌, inl, inr}
use mathlib.Core.Bool.{◌&&◌}
use mathlib.Core.Option.{Option, none, some}
use mathlib.Core.List.{List, [], ◌∷◌, ◌++◌}
use native.Mathlib.Omega.{arith}
use immich_go_server.Prelude.Tests.{ltb, leb, eqb, if◌then◌else◌, Bool-cases}
use immich_go_server.Prelude.Int.{ℤ, pos, negsuc, ◌-ℤ◌}
use immich_go_server.Prelude.Lists.{All}

abbrev digits_from : ℕ → List ℕ → Option ℕ
digits_from n [] = some n
digits_from n (c ∷ cs) =
    let rest = digits_from (n * 10 + (c - 48)) cs in if leb 48 c && leb c 57 then rest else none

abbrev number : List ℕ → Option ℕ
number [] = none
number (c ∷ cs) = digits_from 0 (c ∷ cs)

abbrev positive : Option ℕ → Option ℤ
positive none = none
positive (some n) = if ltb n (2 ^ 63) then some (pos n) else none

abbrev negative : Option ℕ → Option ℤ
negative none = none
negative (some n) = if leb n (2 ^ 63) then some (pos 0 -ℤ pos n) else none

-- `strconv.ParseInt(s, 10, 64)`
abbrev pub parse_int : List ℕ → Option ℤ
parse_int [] = none
parse_int (c ∷ cs) =
    if eqb c 45
    then negative (number cs)
    else if eqb c 43
    then positive (number cs)
    else positive (number (c ∷ cs))

-- The digits of `n` before those of `acc`; the fuel is more than the number of digits.
digits : ℕ → ℕ → List ℕ → List ℕ
digits zero n acc = acc
digits (suc fuel) n acc =
    let more = digits fuel (n / 10) ((48 + n % 10) ∷ acc) in
    if ltb n 10 then (48 + n) ∷ acc else more

-- The digits of a number that is not negative.
unfoldable pub decimal : ℕ → List ℕ
unfolding digits
decimal n = digits (suc n) n []

-- `strconv.FormatInt(n, 10)`
abbrev pub format_int : ℤ → List ℕ
format_int (pos n) = decimal n
format_int (negsuc n) = 45 ∷ decimal (suc n)

-- What is before and behind the first `sep`.
abbrev consed : ℕ → Option (List ℕ × List ℕ) → Option (List ℕ × List ℕ)
consed c none = none
consed c (some (left, right)) = some (c ∷ left, right)

abbrev pub cut : ℕ → List ℕ → Option (List ℕ × List ℕ)
cut sep [] = none
cut sep (c ∷ cs) = let rest = consed c (cut sep cs) in if eqb c sep then some ([], cs) else rest

abbrev pub IsDigit : ℕ → Type 0
IsDigit c = (48 ≤ c) × (c ≤ 57)

digits-IsDigit : (fuel n : ℕ) (acc : List ℕ) → All IsDigit acc → All IsDigit (digits fuel n acc)
unfolding digits
digits-IsDigit zero n acc h = h
digits-IsDigit (suc fuel) n acc h = elim (Bool-cases (ltb n 10)) [
  | inl last ↦ rw last (ground arith, h)
  | inr more ↦ rw more (digits-IsDigit fuel (n / 10) ((48 + n % 10) ∷ acc) (omega arith, h))
]

pub decimal-IsDigit : (n : ℕ) → All IsDigit (decimal n)
unfolding decimal
decimal-IsDigit n = digits-IsDigit (suc n) n [] tt

next_digit : (n : ℕ) (acc : List ℕ) → digits_from (n / 10) ((48 + n % 10) ∷ acc) ≡ digits_from n acc
next_digit n acc =
    let whole : n / 10 * 10 + (48 + n % 10 - 48) ≡ n = omega arith in
    ground (arith, ap (λ k. digits_from k acc) whole)

digits_from-digits :
    (fuel n : ℕ) (acc : List ℕ) → n < fuel → digits_from 0 (digits fuel n acc) ≡ digits_from n acc
unfolding digits
digits_from-digits zero n acc h = absurd (omega arith)
digits_from-digits (suc fuel) n acc h = elim (Bool-cases (ltb n 10)) [
  | inl last ↦ rw last (ground arith)
  | inr more ↦
      rw more
        (digits_from-digits fuel (n / 10) ((48 + n % 10) ∷ acc) (ground arith) ∙ next_digit n acc)
]

number_of_digits :
    (c : ℕ) (cs : List ℕ) → All IsDigit (c ∷ cs) → parse_int (c ∷ cs) ≡ positive (number (c ∷ cs))
number_of_digits c cs h = ground arith

digits-ne-nil : (fuel n : ℕ) (acc : List ℕ) → n < fuel → digits fuel n acc ≢ []
unfolding digits
digits-ne-nil zero n acc h = absurd (omega arith)
digits-ne-nil (suc fuel) n acc h = elim (Bool-cases (ltb n 10)) [
  | inl last ↦ rw last (λ e. cc)
  | inr more ↦ rw more (digits-ne-nil fuel (n / 10) ((48 + n % 10) ∷ acc) (ground arith))
]

pub decimal-ne-nil : (n : ℕ) → decimal n ≢ []
unfolding decimal
decimal-ne-nil n = digits-ne-nil (suc n) n [] (omega arith)

parse_digits :
    (cs : List ℕ) (n : ℕ)
    → All IsDigit cs
    → cs ≢ []
    → digits_from 0 cs ≡ some n
    → n < 2 ^ 63
    → parse_int cs ≡ some (pos n)
parse_digits [] n h ne d fits = absurd (ne refl)
parse_digits (c ∷ cs) n h ne d fits = number_of_digits c cs h ∙ (ap positive d ∙ ground arith)

-- What is printed is read back.
pub parse_int-decimal : (n : ℕ) → n < 2 ^ 63 → parse_int (decimal n) ≡ some (pos n)
unfolding decimal
parse_int-decimal n fits =
    parse_digits (digits (suc n) n []) n (decimal-IsDigit n) (decimal-ne-nil n)
      (digits_from-digits (suc n) n [] (omega arith)) fits

-- A separator that is no digit is found behind a number.
pub cut-append :
    (sep : ℕ) (cs rest : List ℕ)
    → All IsDigit cs
    → sep < 48
    → cut sep (cs ++ sep ∷ rest) ≡ some (cs, rest)
cut-append sep [] rest h low = ground arith
cut-append sep (c ∷ cs) rest h low = ground (arith, cut-append sep cs rest h.1 low)
