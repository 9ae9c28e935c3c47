-- ===== src/Prelude/Choice.antt =====
-- A filter followed by a scan for the best element, as the program's choices of a disk are written.
use mathlib.Core.Path.{◌≡◌}
use mathlib.Core.Logic.{◌↔◌, inl, inr}
use mathlib.Core.Option.{Option, none, some}
use mathlib.Core.Bool.{Bool, true, false}
use mathlib.Core.List.{List, Memᴰ}
use immich_go_server.Prelude.Tests.{Option-cases}
use immich_go_server.Prelude.Lists.{
  retain, first_best, mem-retain, mem_retain_of, retain-nil, All-mem, first_best-mem,
  first_best-best, first_best-none,
}

module _ {ℓ} {A : Type ℓ} (admit : A → Bool) (better : A → A → Bool) where
  -- `d` is admitted, and no admitted element of `xs` is better.
  pub record IsBest (xs : List A) (d : A) : Type ℓ where
    pub member : Memᴰ d xs
    pub admitted : admit d ≡ true
    pub best : (e : A) → Memᴰ e xs → admit e ≡ true → better e d ≡ false

  abbrev pub choose : List A → Option A
  choose xs = first_best better (retain admit xs)

  pub choose-none : (xs : List A) → choose xs ≡ none → (e : A) → Memᴰ e xs → admit e ≡ false
  choose-none xs h e m =
      All-mem _ xs (retain-nil admit xs (first_best-none better (retain admit xs) h)) m

  module _ (irrefl : (a : A) → better a a ≡ false)
      (trans : (a b c : A) → better a b ≡ true → better b c ≡ true → better a c ≡ true) where
    pub choose-IsBest : (xs : List A) {d : A} → choose xs ≡ some d → IsBest xs d
    choose-IsBest xs h =
        let (m, t) = mem-retain admit xs (first_best-mem better (retain admit xs) h) in
        record {
          member = m;
          admitted = t;
          best = λ e me te.
              All-mem _ (retain admit xs) (first_best-best better irrefl trans (retain admit xs) h)
                (mem_retain_of admit xs me te);
        }

    pub choose-none_iff :
        (xs : List A) → (choose xs ≡ none) ↔ ((e : A) → Memᴰ e xs → admit e ≡ false)
    choose-none_iff xs = (
      choose-none xs,
      λ all. elim (Option-cases (choose xs)) [
        | inl n ↦ n
        | inr (d, h) ↦ let b = choose-IsBest xs h in cc (all d b.member, b.admitted)
      ],
    )
