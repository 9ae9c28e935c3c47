-- ===== src/Executor/Run.antt =====
-- What holds behind the loop of `Run` and behind `Run` itself, whatever the blob store does.
use mathlib.Core.List.{Memᴰ, Nodup, Nodup-cons}
use mathlib.Core.List.Memᴰ
use immich_go_server.Prelude.{
  String, ◌≡◌, ◌≢◌, refl, sym, ap, subst, ◌∙◌, ◌⊎◌, inl, inr, Bool, true, false, List, [], ◌∷◌, map,
  arith, if◌then◌else◌, Assoc, contains, contains_iff, eq_iff, ◌==◌, eq_refl, Bool-cases, All,
  Triple, Triple-then, Triple-weaken, ◌||◌,
}
use immich_go_server.Model.{Asset}
use immich_go_server.Migration.{
  Manifest, FileAction, ActionMode, mode_skip, mode_range, mode_whole, resume_one,
}
use immich_go_server.Migration.Copied.{ids, contains-comp_set}
use immich_go_server.Migration.Resume.{contains-append, contains-single}
use immich_go_server.Executor.{
  Job, Error, out_of_fuel, Bytes, copy_file, copy_all, find_asset, no_asset,
}
use immich_go_server.Executor.Invariant.{IsSafe}
use immich_go_server.Executor.File.{copy_file-Triple, completed_by}

-- Of assets with distinct ids, the one with an asset's id is that asset.
find_asset_absent :
    (id : String) (fs : List Asset) (found : Asset)
    → contains id (ids fs) ≡ false
    → find_asset id fs found ≡ found
unfolding find_asset contains
find_asset_absent id [] found h = refl
find_asset_absent id (f ∷ fs) found h = ground (arith, find_asset_absent id fs found)

not_in_tail : (k : String) (ks : List String) → Nodup (k ∷ ks) → contains k ks ≡ false
not_in_tail k ks n = elim (Bool-cases (contains k ks)) [
  | inl t ↦ absurd ((Nodup-cons.0 n).0 ∣ (contains_iff k ks).0 t ∣₁)
  | inr f ↦ f
]

pub find_asset_mem :
    (fs : List Asset) (found f : Asset)
    → Nodup (ids fs)
    → Memᴰ f fs
    → find_asset f.asset_id fs found ≡ f
unfolding find_asset
find_asset_mem [] found f n m = absurd (Memᴰ.not-nil m)
find_asset_mem (g ∷ fs) found f n (Memᴰ.head e) =
    subst (λ x. find_asset x.asset_id fs (if g.asset_id == x.asset_id then g else found) ≡ x)
      (sym e) (rw eq_refl (find_asset_absent g.asset_id fs g (not_in_tail g.asset_id (ids fs) n)))
find_asset_mem (g ∷ fs) found f n (Memᴰ.tail m) =
    find_asset_mem fs (if g.asset_id == f.asset_id then g else found) f (Nodup-cons.0 n).1 m

-- The mode of an action says whether its file is completed.
abbrev pub Fits : ActionMode → Bool → Type 0
Fits mode done = ((mode ≡ mode_skip) → done ≡ true) × ((mode ≢ mode_skip) → done ≡ false)

skip_or : (mode : ActionMode) → (mode ≡ mode_skip) ⊎ (mode ≢ mode_skip)
skip_or mode_skip = inl refl
skip_or mode_range = inr (λ e. cc)
skip_or mode_whole = inr (λ e. cc)

module _ (src : Assoc Bytes) (f : Asset) (c : List String) where
  contains-completed_by :
      (mode : ActionMode) (k : String)
      → (mode ≢ mode_skip)
      → contains k (completed_by src f c mode) ≡ (contains k c || f.asset_id == k)
  contains-completed_by mode_skip k n = absurd (n refl)
  contains-completed_by mode_range k n =
      ground (arith, contains-append k c (f.asset_id ∷ []), contains-single k f.asset_id)
  contains-completed_by mode_whole k n =
      ground (arith, contains-append k c (f.asset_id ∷ []), contains-single k f.asset_id)

  -- Handling the file completes it, and no other.
  completed_by_self :
      (mode : ActionMode)
      → Fits mode (contains f.asset_id c)
      → contains f.asset_id (completed_by src f c mode) ≡ true
  completed_by_self mode fits = elim (skip_or mode) [
    | inl e ↦ rw e (fits.0 e)
    | inr n ↦ ground (arith, contains-completed_by mode f.asset_id n, eq_iff f.asset_id f.asset_id)
  ]

  completed_by-other :
      (mode : ActionMode) (k : String)
      → f.asset_id ≢ k
      → contains k (completed_by src f c mode) ≡ contains k c
  completed_by-other mode k ne = elim (skip_or mode) [
    | inl e ↦ rw e refl
    | inr n ↦ ground (arith, contains-completed_by mode k n, eq_iff f.asset_id k)
  ]

  completed_by-grows :
      (mode : ActionMode) (k : String)
      → contains k c ≡ true
      → contains k (completed_by src f c mode) ≡ true
  completed_by-grows mode k h = elim (skip_or mode) [
    | inl e ↦ rw e h
    | inr n ↦ ground (arith, contains-completed_by mode k n)
  ]

module _ (src : Assoc Bytes) (source : List Asset) where
  abbrev pub Before : List String → Job → Type 0
  Before c s = IsSafe src s × (s.m.completed ≡ c)

  -- All of `todo` is completed, and so is what was.
  abbrev pub Completed : List Asset → List String → Job → Type 0
  Completed todo c s =
      IsSafe src s
      × All (λ f. contains f.asset_id s.m.completed ≡ true) todo
      × ((k : String) → contains k c ≡ true → contains k s.m.completed ≡ true)

  abbrev pub Broken : Error → Job → Type 0
  Broken e s = IsSafe src s × (e ≢ out_of_fuel)

  module _ (resume : Asset → FileAction)
      (same_id : (f : Asset) → (resume f).asset_id ≡ f.asset_id) where
    abbrev pub Plan : List Asset → List String → Type 0
    Plan todo c =
        All
          (λ f.
            (find_asset f.asset_id source no_asset ≡ f)
            × Fits (resume f).mode (contains f.asset_id c))
          todo

    Plan-rest :
        (f : Asset) (todo : List Asset) (c : List String)
        → contains f.asset_id (ids todo) ≡ false
        → Plan todo c
        → Plan todo (completed_by src f c (resume f).mode)
    unfolding contains
    Plan-rest f [] c absent p = tt
    Plan-rest f (g ∷ todo) c absent p =
        let other =
          completed_by-other src f c (resume f).mode g.asset_id
            (λ e. ground (arith, eq_iff g.asset_id f.asset_id)) in
        (
          (p.0.0, ((λ e. other ∙ p.0.1.0 e), (λ e. other ∙ p.0.1.1 e))),
          Plan-rest f todo c (ground arith) p.1,
        )

    pub copy_all-Triple :
        (todo : List Asset) (c : List String)
        → Nodup (ids todo)
        → Plan todo c
        → Triple (Before c) (copy_all source (map resume todo)) (λ _. Completed todo c) Broken
    unfolding copy_all
    copy_all-Triple [] c n p = record { at = λ s h. (h.0, tt, λ k e. ap (contains k) h.1 ∙ e) }
    copy_all-Triple (f ∷ todo) c n p =
        let c' = completed_by src f c (resume f).mode in
        Triple-then {Q = λ _. Before c'}
          (copy_file (find_asset (resume f).asset_id source no_asset) (resume f)) _
          (subst (λ g. Triple (Before c) (copy_file g (resume f)) (λ _. Before c') Broken)
            (sym (ap (λ k. find_asset k source no_asset) (same_id f) ∙ p.0.0))
            (copy_file-Triple src f c (resume f) p.0.1.1))
          (λ _.
            Triple-weaken (λ s h. h)
              (λ _ s h. (
                h.0,
                (h.2 f.asset_id (completed_by_self src f c (resume f).mode p.0.1), h.1),
                λ k e. h.2 k (completed_by-grows src f c (resume f).mode k e),
              ))
              (copy_all-Triple todo c' (Nodup-cons.0 n).1
                (Plan-rest f todo c (not_in_tail f.asset_id (ids todo) n) p.1)))

  -- The plan that `ComputeResume` makes of the manifest in memory fits it.
  pub resume_one_id : (m : Manifest) (f : Asset) → (resume_one m f).asset_id ≡ f.asset_id
  unfolding resume_one
  resume_one_id m f = ground arith

  pub resume_one-Fits :
      (m : Manifest) (f : Asset) → Fits (resume_one m f).mode (contains f.asset_id m.completed)
  unfolding resume_one
  resume_one-Fits m f = ground (arith, contains-comp_set f.asset_id m.completed)
