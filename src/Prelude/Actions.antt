-- ===== src/Prelude/Actions.antt =====
-- Go code that changes a state and may return an error. What was changed before an error stays
-- changed, so the state comes back beside the error too.
use mathlib.Core.Bool.{Bool}
use immich_go_server.Prelude.Results.{Result, ok, err}
use immich_go_server.Prelude.Tests.{if◌then◌else◌}

abbrev pub Action {ℓ} : Type ℓ → Type ℓ → Type ℓ → Type ℓ
Action E S A = S → Result E A × S

module _ {ℓ} {E S A : Type ℓ} where
  abbrev pub pure : A → Action E S A
  pure a s = (ok a, s)

  abbrev pub raise : E → Action E S A
  raise e s = (err e, s)

  abbrev pub gets : (S → A) → Action E S A
  gets f s = (ok (f s), s)

  -- The result and the state after it.
  abbrev pub result : Action E S A → S → Result E A
  result m s = (m s).0

  abbrev pub final : Action E S A → S → S
  final m s = (m s).1

module _ {ℓ} {E S : Type ℓ} where
  abbrev pub modify : (S → S) → Action E S (Unit {ℓ})
  modify f s = (ok tt, f s)

  abbrev pub require : Bool → E → Action E S (Unit {ℓ})
  require b e s = if b then (ok tt, s) else (err e, s)

module _ {ℓ} {E S A B : Type ℓ} where
  abbrev pub continue : Result E A × S → (A → Action E S B) → Result E B × S
  continue (ok a, s) f = f a s
  continue (err e, s) f = (err e, s)

  infixl 10 ◌>>=◌ ◌>>◌
  abbrev pub ◌>>=◌ : Action E S A → (A → Action E S B) → Action E S B
  ◌>>=◌ m f s = continue (m s) f

  abbrev pub ◌>>◌ : Action E S A → Action E S B → Action E S B
  ◌>>◌ m n s = continue (m s) (λ _. n)

module _ {ℓ} {E S A : Type ℓ} where
  abbrev pub Post : (A → S → Type ℓ) → (E → S → Type ℓ) → Result E A × S → Type ℓ
  Post Q R (ok a, s) = Q a s
  Post Q R (err e, s) = R e s

  -- From a state with `P` the action ends in `Q` if it returns a value, and in `R` if an error.
  pub record Triple (P : S → Type ℓ) (m : Action E S A) (Q : A → S → Type ℓ) (R : E → S → Type ℓ)
      : Type ℓ where
    pub at : (s : S) → P s → Post Q R (m s)

module _ {ℓ} {E S A B : Type ℓ} where
  continue-Post :
      (R : E → S → Type ℓ) (Q : A → S → Type ℓ) (Q' : B → S → Type ℓ) (r : Result E A × S)
      (f : A → Action E S B)
      → Post Q R r
      → ((a : A) → Triple (Q a) (f a) Q' R)
      → Post Q' R (continue r f)
  continue-Post R Q Q' (ok a, s) f h k = (k a).at s h
  continue-Post R Q Q' (err e, s) f h k = h

module _ {ℓ} {E S A B : Type ℓ} {P : S → Type ℓ} {R : E → S → Type ℓ} where
  pub Triple-bind :
      {Q : A → S → Type ℓ} {Q' : B → S → Type ℓ} (m : Action E S A) (f : A → Action E S B)
      → Triple P m Q R
      → ((a : A) → Triple (Q a) (f a) Q' R)
      → Triple P (m >>= f) Q' R
  Triple-bind {Q} {Q'} m f km kf = record {
    at = λ s h. continue-Post R Q Q' (m s) f (km.at s h) kf;
  }

  pub Triple-then :
      {Q : A → S → Type ℓ} {Q' : B → S → Type ℓ} (m : Action E S A) (n : Action E S B)
      → Triple P m Q R
      → ((a : A) → Triple (Q a) n Q' R)
      → Triple P (m >> n) Q' R
  Triple-then {Q} {Q'} m n km kn = record {
    at = λ s h. continue-Post R Q Q' (m s) (λ _. n) (km.at s h) kn;
  }

module _ {ℓ} {E S A : Type ℓ} (R : E → S → Type ℓ) where
  weaken-Post :
      (Q Q' : A → S → Type ℓ) (r : Result E A × S)
      → ((a : A) (s : S) → Q a s → Q' a s)
      → Post Q R r
      → Post Q' R r
  weaken-Post Q Q' (ok a, s) f h = f a s h
  weaken-Post Q Q' (err e, s) f h = h

module _ {ℓ} {E S A : Type ℓ} {R : E → S → Type ℓ} where
  pub Triple-weaken :
      {P P' : S → Type ℓ} {Q Q' : A → S → Type ℓ} {m : Action E S A}
      → ((s : S) → P' s → P s)
      → ((a : A) (s : S) → Q a s → Q' a s)
      → Triple P m Q R
      → Triple P' m Q' R
  Triple-weaken {Q} {Q'} {m} f g k = record {
    at = λ s h. weaken-Post R Q Q' (m s) g (k.at s (f s h));
  }
