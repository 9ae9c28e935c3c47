-- ===== src/Release/Local.antt =====
-- What a release on the worker's own node leaves of an asset's replicas.
use immich_go_server.Prelude.{
  ℤ, pos, String, ◌≡◌, refl, sym, ap, subst, ◌∙◌, ◌⊎◌, inl, inr, Bool, true, false, not, ◌&&◌, ◌||◌,
  List, [], ◌∷◌, arith, if◌then◌else◌, ◌==◌, eq_iff, leb_ℤ, length, retain, retain-retain,
  retain-true, Bool-cases, ok, err, Result, Action, continue,
}
use immich_go_server.Model.{Asset, Replica}
use immich_go_server.Store.{Store, working, rows_of, delete_where}
use immich_go_server.Store.Rows.{rows_of-delete_where}
use immich_go_server.Store.Replicas.{list_replicas, delete_replica, is_at}
use immich_go_server.Store.Disks.{disk_root, get_disk}
use immich_go_server.Host.{Host, text_or_empty}
use immich_go_server.Release.{
  is_spare, enough, safe_to_release, mark_safe, same_disk_root, release_bytes, release_each,
  release_local,
}

abbrev of_asset : String → Replica → Bool
of_asset k r = r.asset_id == k

abbrev is_healthy : Replica → Bool
is_healthy r = r.status == "HEALTHY"

-- The replica goes: it is at the source disk and of an asset that is safe.
abbrev is_lost : String → List (Asset × Bool) → Replica → Bool
is_lost src_disk [] r = false
is_lost src_disk ((a, safe) ∷ rest) r =
    (safe && is_at a.asset_id src_disk r) || is_lost src_disk rest r

abbrev any_safe : String → List (Asset × Bool) → Bool
any_safe k [] = false
any_safe k ((a, safe) ∷ rest) = (safe && a.asset_id == k) || any_safe k rest

is_lost_iff :
    (src_disk k : String) (marked : List (Asset × Bool)) (r : Replica)
    → of_asset k r ≡ true
    → is_lost src_disk marked r ≡ (any_safe k marked && r.disk_serial == src_disk)
is_lost_iff src_disk k [] r e = refl
is_lost_iff src_disk k ((a, safe) ∷ rest) r e = ground (
  arith,
  is_lost_iff src_disk k rest r e,
  eq_iff r.asset_id k,
  eq_iff r.asset_id a.asset_id,
  eq_iff a.asset_id k,
)

head_safe : (b c d : Bool) → ((b && c) || d) ≡ true → d ≡ false → (b ≡ true) × (c ≡ true)
head_safe b c d h f = ground arith

continue_ok :
    {E S A : Type 0} (r : Result E Unit × S) (f : Unit → Action E S A)
    → r.0 ≡ ok tt
    → continue r f ≡ f tt r.1
continue_ok (ok a, s) f h = refl
continue_ok (err e, s) f h = cc

module _ {F : Type 0} where
  -- The query reads the replicas of the asset from the tables as they are.
  abbrev safe_in : ℤ → String → Store F → String → Bool
  safe_in min src_disk s k =
      if leb_ℤ min (pos 1)
      then true
      else enough min src_disk (ok (retain (of_asset k) (rows_of s.replica)))

  safe_to_release_lem :
      (min : ℤ) (k src_disk : String) (s : Store F)
      → safe_to_release min k src_disk (working s) ≡ (safe_in min src_disk s k, working s)
  unfolding safe_to_release list_replicas
  safe_to_release_lem min k src_disk s = elim (Bool-cases (leb_ℤ min (pos 1))) [
    | inl t ↦ rw t refl
    | inr f ↦ rw f refl
  ]

  mark_safe_lem :
      (min : ℤ) (src_disk : String) (assets : List Asset) (s : Store F)
      → (marked : List (Asset × Bool)) × (mark_safe min src_disk assets (working s)
          ≡ (marked, working s))
        × ((k : String) → any_safe k marked ≡ true → safe_in min src_disk s k ≡ true)
  unfolding mark_safe
  mark_safe_lem min src_disk [] s = ([], refl, λ k h. cc)
  mark_safe_lem min src_disk (a ∷ rest) s =
      let (marked, step, ok_all) = mark_safe_lem min src_disk rest s in
      (
        (a, safe_in min src_disk s a.asset_id) ∷ marked,
        rw (safe_to_release_lem min a.asset_id src_disk s, step) refl,
        λ k h. elim (Bool-cases (any_safe k marked)) [
          | inl t ↦ ok_all k t
          | inr f ↦
              let (safe, same) =
                head_safe (safe_in min src_disk s a.asset_id) (a.asset_id == k) (any_safe k marked)
                  h f in
              subst (λ j. safe_in min src_disk s j ≡ true) ((eq_iff a.asset_id k).0 same) safe
        ],
      )

  disk_root-working : (serial : String) (s : Store F) → (disk_root serial (working s)).1 ≡ working s
  unfolding disk_root get_disk
  disk_root-working serial s = refl

  release_bytes_lem :
      (root src_disk dst_disk : String) (a : Asset) (h : Host F) (s : Store F)
      → h.store ≡ working s
      → ((release_bytes root src_disk dst_disk a h).0 ≡ ok tt)
        × ((release_bytes root src_disk dst_disk a h).1.store ≡ working s)
  unfolding release_bytes same_disk_root
  release_bytes_lem root src_disk dst_disk a h s quiet = (
    refl,
    rw quiet (
        ap (λ t. (disk_root dst_disk t).1) (disk_root-working src_disk s)
        ∙ disk_root-working dst_disk s),
  )

  abbrev rows_left : String → List (Asset × Bool) → Store F → List Replica
  rows_left src_disk marked s = retain (λ r. not (is_lost src_disk marked r)) (rows_of s.replica)

  release_each_lem :
      (root src_disk dst_disk : String) (marked : List (Asset × Bool)) (h : Host F) (s : Store F)
      → h.store ≡ working s
      → ((release_each root src_disk dst_disk marked h).0 ≡ ok tt)
        × (rows_of (release_each root src_disk dst_disk marked h).1.store.replica
            ≡ rows_left src_disk marked s)
  unfolding release_each release_bytes delete_replica
  release_each_lem root src_disk dst_disk [] h s quiet =
      (refl, ap (λ t. rows_of t.replica) quiet ∙ sym (retain-true (rows_of s.replica)))
  release_each_lem root src_disk dst_disk ((a, false) ∷ rest) h s quiet =
      release_each_lem root src_disk dst_disk rest h s quiet
  release_each_lem root src_disk dst_disk ((a, true) ∷ rest) h s quiet =
      let deleted = record s { replica = delete_where (is_at a.asset_id src_disk) s.replica } in
      let h' = record h { store = working deleted } in
      let more = release_each root src_disk dst_disk rest in
      let bytes = release_bytes_lem root src_disk dst_disk a h' deleted refl in
      let step : release_each root src_disk dst_disk ((a, true) ∷ rest) h
          ≡ more (release_bytes root src_disk dst_disk a h').1 =
        rw quiet (continue_ok (release_bytes root src_disk dst_disk a h') (λ _. more) bytes.0) in
      let ih =
        release_each_lem root src_disk dst_disk rest (release_bytes root src_disk dst_disk a h').1
          deleted bytes.1 in
      (
        ap (λ r. r.0) step ∙ ih.0,
        ap (λ r. rows_of r.1.store.replica) step
            ∙ ih.1
            ∙ ap (retain (λ r. not (is_lost src_disk rest r)))
                (rows_of-delete_where (is_at a.asset_id src_disk) s.replica)
            ∙ retain-retain _ _ (λ r. not (is_lost src_disk ((a, true) ∷ rest) r))
                (rows_of s.replica) (λ r. ground arith),
      )

  left_of_unsafe :
      (src_disk k : String) (marked : List (Asset × Bool)) (s : Store F)
      → any_safe k marked ≡ false
      → retain (of_asset k) (rows_left src_disk marked s) ≡ retain (of_asset k) (rows_of s.replica)
  left_of_unsafe src_disk k marked s none_safe =
      retain-retain (of_asset k) (λ r. not (is_lost src_disk marked r)) (of_asset k)
        (rows_of s.replica) (λ r. ground (arith, none_safe, is_lost_iff src_disk k marked r))

  -- The healthy replicas left of an asset that is safe are those that the worker has counted.
  left_of_safe :
      (src_disk k : String) (marked : List (Asset × Bool)) (s : Store F)
      → any_safe k marked ≡ true
      → retain is_healthy (retain (of_asset k) (rows_left src_disk marked s))
        ≡ retain (is_spare src_disk) (retain (of_asset k) (rows_of s.replica))
  left_of_safe src_disk k marked s safe =
      ap (retain is_healthy) (
        retain-retain (of_asset k) (λ r. not (is_lost src_disk marked r))
          (λ r. not (r.disk_serial == src_disk) && of_asset k r) (rows_of s.replica)
          (λ r. ground (arith, safe, is_lost_iff src_disk k marked r)))
      ∙ retain-retain is_healthy _ (λ r. of_asset k r && is_spare src_disk r) (rows_of s.replica)
          (λ r. ground arith)
      ∙ sym (
          retain-retain (is_spare src_disk) (of_asset k) (λ r. of_asset k r && is_spare src_disk r)
            (rows_of s.replica) (λ r. refl))

-- Of the asset `k` the replicas are as before, or at least `min` healthy ones are left, or `min` is at
-- most 1.
abbrev pub IsKept : ℤ → String → List Replica → List Replica → Type 0
IsKept min k before after =
    (retain (of_asset k) after ≡ retain (of_asset k) before)
    ⊎ ((leb_ℤ min (pos 1) ≡ true)
        ⊎ (leb_ℤ min (pos (length (retain is_healthy (retain (of_asset k) after)))) ≡ true))

module _ {F : Type 0} where
  left-IsKept :
      (min : ℤ) (src_disk k : String) (marked : List (Asset × Bool)) (s : Store F)
      → ((k : String) → any_safe k marked ≡ true → safe_in min src_disk s k ≡ true)
      → IsKept min k (rows_of s.replica) (rows_left src_disk marked s)
  left-IsKept min src_disk k marked s safe = elim (Bool-cases (any_safe k marked)) [
    | inl t ↦ elim (Bool-cases (leb_ℤ min (pos 1))) [
      | inl small ↦ inr (inl small)
      | inr large ↦ inr (
          inr (
            ap (λ rows. leb_ℤ min (pos (length rows))) (left_of_safe src_disk k marked s t)
            ∙ (rw large at (safe k t))))
    ]
    | inr f ↦ inl (left_of_unsafe src_disk k marked s f)
  ]

  -- A release on the worker's own node, while the engine works, returns no error, and for every asset
  -- either its replicas are as before, or at least `MinReplicas` healthy ones are left, unless
  -- `MinReplicas` is at most 1.
  pub release_local-IsKept :
      (min : ℤ) (src_disk dst_disk k : String) (assets : List Asset) (h : Host F) (s : Store F)
      → h.store ≡ working s
      → ((release_local min src_disk dst_disk assets h).0 ≡ ok tt)
        × IsKept min k
            (rows_of s.replica)
            (rows_of (release_local min src_disk dst_disk assets h).1.store.replica)
  unfolding release_local
  release_local-IsKept min src_disk dst_disk k assets h s quiet =
      let (marked, step, safe) = mark_safe_lem min src_disk assets s in
      let each =
        release_each_lem (text_or_empty (disk_root src_disk (working s)).0) src_disk dst_disk marked
          (record h { store = (disk_root src_disk (working s)).1 }) s
          (disk_root-working src_disk s) in
      rw (quiet, step)
        (
          each.0,
          subst (IsKept min k (rows_of s.replica)) (sym each.1)
              (left-IsKept min src_disk k marked s safe),
        )
