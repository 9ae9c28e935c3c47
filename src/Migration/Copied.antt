-- ===== src/Migration/Copied.antt =====
-- When a migration counts as copied, and when its source may be deleted.
use mathlib.Core.List as L
use mathlib.Core.List.{Mem, Memᴰ, Nodup, Nodup-nil, Nodup-cons, Perm, Subset, not-mem-nil, mem-cons}
use mathlib.Core.List.Memᴰ
use mathlib.Core.List.Nodup
use mathlib.Core.List.Subperm
use mathlib.Core.List.Perm
use mathlib.Core.Logic.{∥∥₁_elim, ∥∥₁_map}
use native.Mathlib.Bridge.{from_ℕ, from_le⁻¹}
use immich_go_server.Prelude.{
  suc, ◌≤◌, ℤ, String, ◌≡◌, refl, sym, ap, ◌∙◌, ◌↔◌, inl, inr, true, List, [], ◌∷◌, map, arith,
  length, contains, contains_iff, include, ◌≤ℤ◌, Assoc, lookup, eq_iff, Bool-cases,
}
use immich_go_server.Config.{Config}
use immich_go_server.Model.{Asset}
use immich_go_server.Migration.{Manifest, comp_set, all_in, all_copied, can_delete_source, count_of}

abbrev pub ids : List Asset → List String
ids = map (λ f. f.asset_id)

length-bridge {ℓ} : {A : Type ℓ} (xs : List A) → from_ℕ (L.length xs) ≡ length xs
length-bridge [] = refl
length-bridge (x ∷ xs) = ap suc (length-bridge xs)

length-ids : (fs : List Asset) → length (ids fs) ≡ length fs
length-ids [] = refl
length-ids (f ∷ fs) = ap suc (length-ids fs)

-- `comp_set` keeps the members and drops the repetitions.
pub contains-comp_set : (k : String) (xs : List String) → contains k (comp_set xs) ≡ contains k xs
unfolding comp_set include contains
contains-comp_set k [] = refl
contains-comp_set k (x ∷ xs) = ground (arith, contains-comp_set k xs, eq_iff x k)

pub mem_iff : (k : String) (s : List String) → (contains k s ≡ true) ↔ Mem k s
mem_iff k s =
    ((λ h. ∣ (contains_iff k s).0 h ∣₁), (λ m. ∥∥₁_elim m (hlevel) ((contains_iff k s).1)))

comp_set-Nodup : (xs : List String) → Nodup (comp_set xs)
unfolding comp_set include
comp_set-Nodup [] = Nodup-nil
comp_set-Nodup (x ∷ xs) = elim (Bool-cases (contains x (comp_set xs))) [
  | inl old ↦ rw old (comp_set-Nodup xs)
  | inr new ↦
      rw new (Nodup-cons.1 ((λ m. cc ((mem_iff x (comp_set xs)).1 m, new)), comp_set-Nodup xs))
]

all_in_sound :
    (set : List String) (fs : List Asset) (k : String)
    → all_in set fs ≡ true
    → Memᴰ k (ids fs)
    → contains k set ≡ true
unfolding all_in
all_in_sound set [] k h m = absurd (Memᴰ.not-nil m)
all_in_sound set (f ∷ fs) k h (Memᴰ.head e) = rw e (ground arith)
all_in_sound set (f ∷ fs) k h (Memᴰ.tail m) = all_in_sound set fs k (ground arith) m

all_in_complete :
    (set : List String) (fs : List Asset)
    → ((k : String) → Memᴰ k (ids fs) → contains k set ≡ true)
    → all_in set fs ≡ true
unfolding all_in
all_in_complete set [] h = refl
all_in_complete set (f ∷ fs) h =
    rw (h f.asset_id (Memᴰ.head refl)) (all_in_complete set fs (λ k m. h k (Memᴰ.tail m)))

all_copied-parts :
    (m : Manifest) (source : List Asset)
    → (all_copied m source ≡ true) ↔ (
        (length (comp_set m.completed) ≡ length source)
        × (all_in (comp_set m.completed) source ≡ true))
unfolding all_copied
all_copied-parts m source = ground arith

same_length :
    (xs ys : List String) → length xs ≡ length ys → from_ℕ (L.length ys) ≤ from_ℕ (L.length xs)
same_length xs ys e = omega (arith, length-bridge xs, length-bridge ys)

-- Two lists without repetition, the one inside the other and of equal length, are the same up to
-- order.
perm_of_subset :
    (xs ys : List String) → Nodup xs → Subset xs ys → length xs ≡ length ys → Perm xs ys
perm_of_subset xs ys n s e =
    Subperm.perm_of_length_le (Nodup.subperm n s) (from_le⁻¹ _ _ (same_length xs ys e))

module _ (m : Manifest) (source : List Asset) (distinct : Nodup (ids source)) where
  all_copied-perm : all_copied m source ≡ true → Perm (ids source) (comp_set m.completed)
  all_copied-perm h =
      let (len, inside) = (all_copied-parts m source).0 h in
      perm_of_subset (ids source) (comp_set m.completed) distinct
        (λ k there. ∥∥₁_map there λ mem. (contains_iff k _).0 (all_in_sound _ source k inside mem))
        (length-ids source ∙ sym len)

  all_copied_of_perm : Perm (ids source) (comp_set m.completed) → all_copied m source ≡ true
  all_copied_of_perm p = (all_copied-parts m source).1 (
    sym (length-bridge (comp_set m.completed))
        ∙ sym (ap from_ℕ (Perm.length-eq p))
        ∙ length-bridge (ids source)
        ∙ length-ids source,
    all_in_complete _ source (λ k mem. (mem_iff k _).1 (Perm.subset p k ∣ mem ∣₁)),
  )

  mem-comp_set : (k : String) → Mem k (comp_set m.completed) ↔ Mem k m.completed
  mem-comp_set k = (
    (λ h. (mem_iff k _).0 (sym (contains-comp_set k m.completed) ∙ (mem_iff k _).1 h)),
    (λ h. (mem_iff k _).0 (contains-comp_set k m.completed ∙ (mem_iff k _).1 h)),
  )

  -- For a source without repeated assets, the migration counts as copied exactly when the completed
  -- files are the files of the source: none is missing, and none is there that the source lacks.
  pub all_copied_iff :
      (all_copied m source ≡ true) ↔ ((k : String) → Mem k m.completed ↔ Mem k (ids source))
  all_copied_iff = (
    (λ h k. (
      (λ c. Perm.subset (Perm.symm (all_copied-perm h)) k ((mem-comp_set k).1 c)),
      (λ c. (mem-comp_set k).0 (Perm.subset (all_copied-perm h) k c)),
    )),
    (λ same. all_copied_of_perm (
        Subperm.antisymm (Nodup.subperm distinct (λ k c. (mem-comp_set k).1 ((same k).1 c)))
          (Nodup.subperm (comp_set-Nodup m.completed) (λ k c. (same k).0 ((mem-comp_set k).0 c))))),
  )

-- The source may be deleted exactly when each of its assets has at least `MinReplicas` effective
-- replicas, a missing count being 0.
pub can_delete_source_iff :
    {F : Type 0} (fs : List Asset) (effective : Assoc ℤ) (cfg : Config F)
    → (can_delete_source fs effective cfg ≡ true)
      ↔ ((f : Asset) → Memᴰ f fs → cfg.min_replicas ≤ℤ count_of (lookup f.asset_id effective))
unfolding can_delete_source
can_delete_source_iff [] effective cfg = ((λ h f m. absurd (Memᴰ.not-nil m)), λ h. refl)
can_delete_source_iff (f ∷ fs) effective cfg =
    let ih = can_delete_source_iff fs effective cfg in
    (
      (λ h g m. elim (Memᴰ.cases_cons m) [
        | inl e ↦ rw e (ground arith)
        | inr rest ↦ ih.0 (ground arith) g rest
      ]),
      (λ all. ground (arith, all f (Memᴰ.head refl), ih.1 (λ g m. all g (Memᴰ.tail m)))),
    )
