-- ===== src/Prelude/Lists.antt =====
-- Lists measured by native numbers, Boolean filters, and predicates over lists.
use Prim.Native.Nat.{ℕ, zero, suc, ◌+◌, ◌-◌, ◌≤◌, ◌<◌}
use mathlib.Core.Path.{ap, ◌≡◌, refl, sym, subst, ◌∙◌}
use mathlib.Core.Logic.{◌⊎◌, inl, inr}
use mathlib.Core.Option.{Option, none, some, some-injective}
use mathlib.Core.Bool.{◌&&◌, Bool, true, false, false≢true}
use mathlib.Core.List.{List, [], ◌∷◌, ◌++◌, Memᴰ}
use mathlib.Core.List.Memᴰ
use native.Mathlib.Omega.{arith}
use immich_go_server.Prelude.Tests.{Bool-cases, if◌then◌else◌}

module _ {ℓ} {A : Type ℓ} where
  abbrev pub length : List A → ℕ
  length [] = 0
  length (x ∷ xs) = suc (length xs)

  -- The members that pass a Boolean test, in order.
  abbrev pub retain : (A → Bool) → List A → List A
  retain p [] = []
  retain p (x ∷ xs) = if p x then x ∷ retain p xs else retain p xs

  abbrev pub All {κ} : (A → Type κ) → List A → Type κ
  All P [] = Unit
  All P (x ∷ xs) = P x × All P xs

  pub length-append : (xs ys : List A) → length (xs ++ ys) ≡ length xs + length ys
  length-append [] ys = omega arith
  length-append (x ∷ xs) ys = omega (arith, length-append xs ys)

  pub length-retain-le : (p : A → Bool) (xs : List A) → length (retain p xs) ≤ length xs
  length-retain-le p [] = omega arith
  length-retain-le p (x ∷ xs) = ground (arith, length-retain-le p xs)

module _ {ℓ κ} {A : Type ℓ} (P : A → Type κ) where
  pub All-mem : {a : A} (xs : List A) → All P xs → Memᴰ a xs → P a
  All-mem [] h m = absurd (Memᴰ.not-nil m)
  All-mem (x ∷ xs) h (Memᴰ.head e) = rw e h.0
  All-mem (x ∷ xs) h (Memᴰ.tail m) = All-mem xs h.1 m

  pub All-of_mem : (xs : List A) → ((a : A) → Memᴰ a xs → P a) → All P xs
  All-of_mem [] f = tt
  All-of_mem (x ∷ xs) f = (f x (Memᴰ.head refl), All-of_mem xs (λ a m. f a (Memᴰ.tail m)))

module _ {ℓ} {A : Type ℓ} where
  mem-if :
      {a x : A} {ys : List A} (b : Bool)
      → Memᴰ a (if b then x ∷ ys else ys)
      → ((a ≡ x) × (b ≡ true)) ⊎ Memᴰ a ys
  mem-if true (Memᴰ.head e) = inl (e, refl)
  mem-if true (Memᴰ.tail m) = inr m
  mem-if false m = inr m

  -- What a filter keeps was there, and passes the test.
  pub mem-retain :
      (p : A → Bool) {a : A} (xs : List A) → Memᴰ a (retain p xs) → Memᴰ a xs × (p a ≡ true)
  mem-retain p [] m = absurd (Memᴰ.not-nil m)
  mem-retain p (x ∷ xs) m = elim (mem-if (p x) m) [
    | inl (e, t) ↦ (Memᴰ.head e, rw e t)
    | inr n ↦ (Memᴰ.tail (mem-retain p xs n).0, (mem-retain p xs n).1)
  ]

  pub mem_retain_of :
      (p : A → Bool) {a : A} (xs : List A) → Memᴰ a xs → p a ≡ true → Memᴰ a (retain p xs)
  mem_retain_of p [] m t = absurd (Memᴰ.not-nil m)
  mem_retain_of p {a} (x ∷ xs) (Memᴰ.head e) t =
      let here : p x ≡ true = rw (← e) t in rw here (Memᴰ.head e)
  mem_retain_of p {a} (x ∷ xs) (Memᴰ.tail m) t = elim (Bool-cases (p x)) [
    | inl y ↦ rw y (Memᴰ.tail (mem_retain_of p xs m t))
    | inr n ↦ rw n (mem_retain_of p xs m t)
  ]

  pub retain-nil : (p : A → Bool) (xs : List A) → retain p xs ≡ [] → All (λ x. p x ≡ false) xs
  retain-nil p [] e = tt
  retain-nil p (x ∷ xs) e = ground (arith, retain-nil p xs)

  pub retain_ext :
      (p q : A → Bool) (xs : List A) → ((x : A) → p x ≡ q x) → retain p xs ≡ retain q xs
  retain_ext p q [] h = refl
  retain_ext p q (x ∷ xs) h = ground (arith, h x, retain_ext p q xs h)

  pub retain-true : (xs : List A) → retain (λ _. true) xs ≡ xs
  retain-true [] = refl
  retain-true (x ∷ xs) = ap (λ ys. x ∷ ys) (retain-true xs)

  -- Two filters in a row are one.
  pub retain-retain :
      (p q both : A → Bool) (xs : List A)
      → ((x : A) → both x ≡ (q x && p x))
      → retain p (retain q xs) ≡ retain both xs
  retain-retain p q both [] h = refl
  retain-retain p q both (x ∷ xs) h = elim (Bool-cases (q x)) [
    | inl t ↦ rw t (ground (arith, h x, retain-retain p q both xs h))
    | inr f ↦ rw f (ground (arith, h x, retain-retain p q both xs h))
  ]

  pub retain-append :
      (p : A → Bool) (xs ys : List A) → retain p (xs ++ ys) ≡ retain p xs ++ retain p ys
  retain-append p [] ys = refl
  retain-append p (x ∷ xs) ys = ground (arith, retain-append p xs ys)

  pub retain-All : (p : A → Bool) (xs : List A) → All (λ x. p x ≡ true) xs → retain p xs ≡ xs
  retain-All p [] h = refl
  retain-All p (x ∷ xs) h = ground (arith, retain-All p xs h.1)

  pub All-retain {κ} :
      (P : A → Type κ) (p : A → Bool) (xs : List A)
      → All P (retain p xs)
      → All (λ x. p x ≡ true → P x) xs
  All-retain P p [] h = tt
  All-retain P p (x ∷ xs) h = elim (Bool-cases (p x)) [
    | inl t ↦ let h' : All P (x ∷ retain p xs) = rw t at h in ((λ _. h'.0), All-retain P p xs h'.1)
    | inr f ↦
        let h' : All P (retain p xs) = rw f at h in
        ((λ t. absurd (false≢true (sym f ∙ t))), All-retain P p xs h')
  ]

  pub All-map {κ θ} :
      {P : A → Type κ} (Q : A → Type θ) (xs : List A) → ((a : A) → P a → Q a) → All P xs → All Q xs
  All-map Q [] f h = tt
  All-map Q (x ∷ xs) f h = (f x h.0, All-map Q xs f h.1)

  -- Go's scan for a best element: the running best gives way only to a strictly better one.
  abbrev pub best_from : (A → A → Bool) → A → List A → A
  best_from better b [] = b
  best_from better b (x ∷ xs) = best_from better (if better x b then x else b) xs

  abbrev pub first_best : (A → A → Bool) → List A → Option A
  first_best better [] = none
  first_best better (x ∷ xs) = some (best_from better x (x ∷ xs))

module _ {ℓ} {A : Type ℓ} (better : A → A → Bool) where
  pub first_best-none : (xs : List A) → first_best better xs ≡ none → xs ≡ []
  first_best-none [] h = refl
  first_best-none (x ∷ xs) h = cc

  pub best_from-mem :
      (b : A) (xs : List A) → (best_from better b xs ≡ b) ⊎ Memᴰ (best_from better b xs) xs
  best_from-mem b [] = inl refl
  best_from-mem b (x ∷ xs) = elim (Bool-cases (better x b)) [
    | inl t ↦
        rw t (elim (best_from-mem x xs) [ inl e ↦ inr (Memᴰ.head e) | inr m ↦ inr (Memᴰ.tail m) ])
    | inr f ↦ rw f (elim (best_from-mem b xs) [ inl e ↦ inl e | inr m ↦ inr (Memᴰ.tail m) ])
  ]

  pub first_best-mem : (xs : List A) {b : A} → first_best better xs ≡ some b → Memᴰ b xs
  first_best-mem [] h = cc
  first_best-mem (x ∷ xs) h =
      subst (λ c. Memᴰ c (x ∷ xs)) (some-injective _ _ h)
        (elim (best_from-mem x (x ∷ xs)) [ inl same ↦ Memᴰ.head same | inr m ↦ m ])

  module _ (irrefl : (a : A) → better a a ≡ false)
      (trans : (a b c : A) → better a b ≡ true → better b c ≡ true → better a c ≡ true) where
    -- The result beats every element and the start; so nothing beats it.
    best_from-keeps :
        (a b : A) (xs : List A) → better a b ≡ false → better a (best_from better b xs) ≡ false
    best_from-keeps a b [] h = h
    best_from-keeps a b (x ∷ xs) h =
        best_from-keeps a (if better x b then x else b) xs (ground (arith, trans a x b))

    best_from-best : (b : A) (xs : List A) → All (λ a. better a (best_from better b xs) ≡ false) xs
    best_from-best b [] = tt
    best_from-best b (x ∷ xs) = (
      best_from-keeps x (if better x b then x else b) xs (ground (arith, irrefl x)),
      best_from-best (if better x b then x else b) xs,
    )

    pub first_best-best :
        (xs : List A) {b : A} → first_best better xs ≡ some b → All (λ a. better a b ≡ false) xs
    first_best-best [] h = tt
    first_best-best (x ∷ xs) h =
        subst (λ c. All (λ a. better a c ≡ false) (x ∷ xs)) (some-injective _ _ h)
          (best_from-best x (x ∷ xs))

module _ {ℓ} {A : Type ℓ} where
  -- The first `n` elements, and the rest.
  abbrev pub take : ℕ → List A → List A
  take zero xs = []
  take (suc n) [] = []
  take (suc n) (x ∷ xs) = x ∷ take n xs

  abbrev pub drop : ℕ → List A → List A
  drop zero xs = xs
  drop (suc n) [] = []
  drop (suc n) (x ∷ xs) = drop n xs

  pub take-append-drop : (n : ℕ) (xs : List A) → take n xs ++ drop n xs ≡ xs
  take-append-drop zero xs = refl
  take-append-drop (suc n) [] = refl
  take-append-drop (suc n) (x ∷ xs) = rw (take-append-drop n xs)

  pub length-take-drop : (n : ℕ) (xs : List A) → length (take n xs) + length (drop n xs) ≡ length xs
  length-take-drop zero xs = omega arith
  length-take-drop (suc n) [] = omega arith
  length-take-drop (suc n) (x ∷ xs) = omega (arith, length-take-drop n xs)

  pub length-drop-lt :
      (n : ℕ) (x : A) (xs : List A) → 0 < n → length (drop n (x ∷ xs)) < length (x ∷ xs)
  length-drop-lt zero x xs h = absurd (omega arith)
  length-drop-lt (suc n) x xs h = omega (arith, length-take-drop n xs)

  pub append-length-drop : (xs ys : List A) → drop (length xs) (xs ++ ys) ≡ ys
  append-length-drop [] ys = refl
  append-length-drop (x ∷ xs) ys = append-length-drop xs ys

  pub take_all : (n : ℕ) (xs : List A) → length xs ≤ n → take n xs ≡ xs
  take_all zero [] h = refl
  take_all (suc n) [] h = refl
  take_all zero (x ∷ xs) h = absurd (omega arith)
  take_all (suc n) (x ∷ xs) h = ap (λ l. x ∷ l) (take_all n xs (omega arith))

  pub length-drop : (n : ℕ) (xs : List A) → length (drop n xs) ≡ length xs - n
  length-drop zero xs = omega arith
  length-drop (suc n) [] = omega arith
  length-drop (suc n) (x ∷ xs) = omega (arith, length-drop n xs)
