-- ===== src/Prelude/Maps.antt =====
-- Go maps with text keys as association lists, and sets of texts as lists without repetition.
use mathlib.Core.Path.{◌≡◌, refl, sym}
use mathlib.Core.Bool.{Bool, true, false, ◌||◌}
use mathlib.Core.Logic.{◌↔◌, inl, inr}
use mathlib.Core.List.{List, [], ◌∷◌, Memᴰ}
use mathlib.Core.List.Memᴰ
use mathlib.Core.Option.{Option, none, some}
use Prim.Native.String.{String}
use native.Mathlib.Omega.{arith}
use text.Mathlib.Text.{◌==◌}
use text.Mathlib.TextEquality.{eq_iff}
use text.Mathlib.TextPositions.{eq_refl}
use immich_go_server.Prelude.Tests.{Bool-cases, if◌then◌else◌}

abbrev pub Assoc {ℓ} : Type ℓ → Type ℓ
Assoc V = List (String × V)

module _ {ℓ} {V : Type ℓ} (key : String) where
  -- `v, ok := m[key]`
  unfoldable pub lookup : Assoc V → Option V
  lookup [] = none
  lookup ((name, found) ∷ rest) =
      let further = lookup rest in if name == key then some found else further

  -- `m[key] = value`
  unfoldable pub insert : V → Assoc V → Assoc V
  insert value [] = (key, value) ∷ []
  insert value ((name, found) ∷ rest) =
      let further = insert value rest in
      if name == key then (key, value) ∷ rest else (name, found) ∷ further

  -- `delete(m, key)`
  unfoldable pub erase : Assoc V → Assoc V
  erase [] = []
  erase ((name, found) ∷ rest) =
      let further = erase rest in if name == key then further else (name, found) ∷ further

module _ {ℓ} {V : Type ℓ} (key asked : String) where
  -- Only the key that is written reads differently.
  pub lookup-insert :
      (value : V) (entries : Assoc V)
      → lookup asked (insert key value entries)
        ≡ (if key == asked then some value else lookup asked entries)
  unfolding lookup insert
  lookup-insert value [] = ground arith
  lookup-insert value ((name, found) ∷ rest) =
      ground (arith, lookup-insert value rest, eq_iff name asked, eq_iff name key, eq_iff key asked)

  pub lookup-erase :
      (entries : Assoc V)
      → lookup asked (erase key entries) ≡ (if key == asked then none else lookup asked entries)
  unfolding lookup erase
  lookup-erase [] = ground arith
  lookup-erase ((name, found) ∷ rest) =
      ground (arith, lookup-erase rest, eq_iff name asked, eq_iff name key, eq_iff key asked)

-- What has been written is read.
pub lookup-insert_self {ℓ} :
    {V : Type ℓ} (key : String) (value : V) (entries : Assoc V)
    → lookup key (insert key value entries) ≡ some value
lookup-insert_self key value entries = rw (lookup-insert key key value entries, eq_refl) refl

-- `set[k]`
unfoldable pub contains : String → List String → Bool
contains k [] = false
contains k (j ∷ s) = j == k || contains k s

-- `set[k] = true`
unfoldable pub include : String → List String → List String
unfolding contains
include k s = if contains k s then s else k ∷ s

pub contains-include :
    (k j : String) (s : List String)
    → contains j (include k s) ≡ (if k == j then true else contains j s)
unfolding include
contains-include k j s = ground (arith, eq_iff k j)

mem_of_contains : (k : String) (s : List String) → contains k s ≡ true → Memᴰ k s
unfolding contains
mem_of_contains k [] h = cc
mem_of_contains k (j ∷ s) h = elim (Bool-cases (j == k)) [
  | inl e ↦ Memᴰ.head (sym ((eq_iff j k).0 e))
  | inr n ↦ Memᴰ.tail (mem_of_contains k s (ground arith))
]

contains_of_mem : (k : String) (s : List String) → Memᴰ k s → contains k s ≡ true
unfolding contains
contains_of_mem k [] m = absurd (Memᴰ.not-nil m)
contains_of_mem k (j ∷ s) (Memᴰ.head e) = ground (arith, eq_iff j k)
contains_of_mem k (j ∷ s) (Memᴰ.tail m) = ground (arith, contains_of_mem k s m)

pub contains_iff : (k : String) (s : List String) → (contains k s ≡ true) ↔ Memᴰ k s
contains_iff k s = (mem_of_contains k s, contains_of_mem k s)
