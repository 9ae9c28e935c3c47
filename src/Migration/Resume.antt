-- ===== src/Migration/Resume.antt =====
-- What a rollback cleans up, and membership in lists that are put together.
use immich_go_server.Prelude.{
  ℤ, String, ◌≡◌, refl, Bool, true, false, ◌||◌, List, [], ◌∷◌, ◌++◌, Option, none, some, arith,
  contains, lookup, Assoc, ◌==◌,
}
use immich_go_server.Migration.{Manifest, rollback_targets, keys}

pub contains-append :
    (k : String) (xs ys : List String) → contains k (xs ++ ys) ≡ (contains k xs || contains k ys)
unfolding contains
contains-append k [] ys = refl
contains-append k (x ∷ xs) ys = ground (arith, contains-append k xs ys)

pub contains-single : (k j : String) → contains k (j ∷ []) ≡ (j == k)
unfolding contains
contains-single k j = ground arith

abbrev pub is_some {ℓ} : {A : Type ℓ} → Option A → Bool
is_some none = false
is_some (some _) = true

contains-keys : (k : String) (p : Assoc ℤ) → contains k (keys p) ≡ is_some (lookup k p)
unfolding contains keys lookup
contains-keys k [] = refl
contains-keys k ((j, v) ∷ p) = ground (arith, contains-keys k p)

-- A rollback cleans up exactly the manifest file, the completed files and the files with bytes
-- recorded.
pub rollback_targets_all :
    (m : Manifest) (path k : String)
    → contains k (rollback_targets m path)
      ≡ (path == k || (contains k m.completed || is_some (lookup k m.partial)))
unfolding rollback_targets contains
rollback_targets_all m path k =
    rw (contains-append k m.completed (keys m.partial), contains-keys k m.partial)
