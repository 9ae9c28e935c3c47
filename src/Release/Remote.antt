-- ===== src/Release/Remote.antt =====
-- What a request to release a source removes on the source node.
pub mod Rows
use mathlib.Core.List.{Memᴰ}
use mathlib.Core.List.Memᴰ
use mathlib.Core.Bool.{false≢true}
use immich_go_server.Prelude.{
  String, ◌≡◌, refl, sym, ap, subst, ◌∙◌, inl, inr, Bool, true, false, not, ◌&&◌, ◌||◌, List, [],
  ◌∷◌, map, some, arith, ◌==◌, eq_iff, eq_refl, contains, retain, retain_ext, retain-retain,
  retain-true, mem-retain, Bool-cases, All, ok,
}
use immich_go_server.Model.{Asset, Replica}
use immich_go_server.Store.{Store, working, rows_of, delete_where}
use immich_go_server.Store.Rows.{rows_of-delete_where}
use immich_go_server.Store.Replicas.{delete_replica, is_at}
use immich_go_server.Store.Disks.{disk_root, get_disk_location, get_disk}
use immich_go_server.Store.Assets.{list_assets_by_dir}
use immich_go_server.Host.{Host}
use immich_go_server.Release.{
  ReleaseRequest, allowed, to_release, release_rows, is_incomplete, release_files,
  handle_release_source,
}

-- The replica is at the source disk and of an asset that may be released.
abbrev pub is_released : String → List String → List Asset → Replica → Bool
is_released src_disk allow [] r = false
is_released src_disk allow (a ∷ rest) r =
    (contains a.asset_id allow && is_at a.asset_id src_disk r) || is_released src_disk allow rest r

to_release-nil :
    (marked : List (Asset × Bool)) → All (λ p. p.1 ≡ false) marked → to_release marked ≡ []
to_release-nil [] h = refl
to_release-nil ((a, safe) ∷ rest) h = rw h.0 (to_release-nil rest h.1)

pub released_all :
    (src_disk : String) (allow : List String) (assets : List Asset) (a : Asset) (r : Replica)
    → Memᴰ a assets
    → contains a.asset_id allow ≡ true
    → is_at a.asset_id src_disk r ≡ true
    → is_released src_disk allow assets r ≡ true
released_all src_disk allow [] a r m c t = absurd (Memᴰ.not-nil m)
released_all src_disk allow (b ∷ rest) a r (Memᴰ.head e) c t =
    subst (λ d. is_released src_disk allow (d ∷ rest) r ≡ true) e (ground (arith, c, t))
released_all src_disk allow (b ∷ rest) a r (Memᴰ.tail m) c t =
    ground (arith, released_all src_disk allow rest a r m c t)

pub contains-ids :
    (assets : List Asset) (a : Asset)
    → Memᴰ a assets
    → contains a.asset_id (map (λ b. b.asset_id) assets) ≡ true
unfolding contains
contains-ids [] a m = absurd (Memᴰ.not-nil m)
contains-ids (b ∷ rest) a (Memᴰ.head e) =
    ground (arith, eq_iff b.asset_id a.asset_id, ap (λ x. x.asset_id) e)
contains-ids (b ∷ rest) a (Memᴰ.tail m) = ground (arith, contains-ids rest a m)

module _ {F : Type 0} where
  abbrev without : (Replica → Bool) → Store F → Store F
  without p s = record s { replica = delete_where p s.replica }

  release_rows_lem :
      (src_disk : String) (allow : List String) (assets : List Asset) (s : Store F)
      → (s' : Store F) × (release_rows src_disk allow assets (working s) ≡ (ok tt, working s'))
        × (rows_of s'.replica
            ≡ retain (λ r. not (is_released src_disk allow assets r)) (rows_of s.replica))
  unfolding release_rows delete_replica
  release_rows_lem src_disk allow [] s = (s, refl, sym (retain-true (rows_of s.replica)))
  release_rows_lem src_disk allow (a ∷ rest) s = elim (Bool-cases (contains a.asset_id allow)) [
    | inl t ↦
        let (s', step, rows) =
          release_rows_lem src_disk allow rest (without (is_at a.asset_id src_disk) s) in
        (
          s',
          rw t step,
          rows
              ∙ ap (retain (λ r. not (is_released src_disk allow rest r)))
                  (rows_of-delete_where (is_at a.asset_id src_disk) s.replica)
              ∙ retain-retain _ _ (λ r. not (is_released src_disk allow (a ∷ rest) r))
                  (rows_of s.replica) (λ r. ground (arith, t)),
        )
    | inr f ↦
        let (s', step, rows) = release_rows_lem src_disk allow rest s in
        (s', rw f step, rows ∙ retain_ext _ _ (rows_of s.replica) (λ r. ground (arith, f)))
  ]

  -- Removing files leaves the tables.
  get_disk_location_replica :
      (serial : String) (s : Store F) → (get_disk_location serial s).1.replica ≡ s.replica
  unfolding get_disk_location
  get_disk_location_replica serial s = ground arith

  disk_root_replica : (serial : String) (s : Store F) → (disk_root serial s).1.replica ≡ s.replica
  unfolding disk_root get_disk
  disk_root_replica serial s = ground arith

  release_files_replica :
      (node_id : String) (req : ReleaseRequest) (allow : List String) (assets : List Asset)
      (h : Host F)
      → (release_files node_id req allow assets h).store.replica ≡ h.store.replica
  release_files_replica node_id req allow assets h = ground (
    arith,
    get_disk_location_replica req.dst_disk h.store,
    disk_root_replica req.src_disk (get_disk_location req.dst_disk h.store).1,
  )

  abbrev pub in_dir : String → Store F → List Asset
  in_dir dir_key s = retain (λ a. a.dir_key == dir_key) (rows_of s.asset)

  -- A complete request to the node that it names, while the engine works, is answered with 200 and removes
  -- exactly the replicas at the source disk of the directory's assets that are listed, and those of all
  -- its assets if none is listed.
  pub handle_release_source_lem :
      (h : Host F) (s : Store F) (req : ReleaseRequest)
      → h.store ≡ working s
      → is_incomplete req ≡ false
      → ((handle_release_source req.release_node "POST" (some req) h).0 ≡ 200)
        × (rows_of (handle_release_source req.release_node "POST" (some req) h).1.store.replica
            ≡ retain
                (λ r. not (
                  is_released req.src_disk
                    (allowed req.release_assets (in_dir req.dir_key s))
                    (in_dir req.dir_key s)
                    r))
                (rows_of s.replica))
  unfolding handle_release_source list_assets_by_dir
  handle_release_source_lem h s req quiet complete =
      let allow = allowed req.release_assets (in_dir req.dir_key s) in
      let (s', step, rows) = release_rows_lem req.src_disk allow (in_dir req.dir_key s) s in
      rw (complete, eq_refl, quiet, step)
        (
          refl,
          ap rows_of (
                release_files_replica req.release_node req allow (in_dir req.dir_key s)
                  (record h { store = working s' }))
              ∙ rows,
        )

  -- If the worker finds that no asset is safe to release, the list that it sends is empty, and then the
  -- source node removes the source replica of every asset of the directory.
  pub handle_release_source_none_safe :
      (h : Host F) (s : Store F) (req : ReleaseRequest) (marked : List (Asset × Bool)) (a : Asset)
      (r : Replica)
      → h.store ≡ working s
      → is_incomplete req ≡ false
      → req.release_assets ≡ to_release marked
      → All (λ p. p.1 ≡ false) marked
      → Memᴰ a (in_dir req.dir_key s)
      → Memᴰ r
          (rows_of (handle_release_source req.release_node "POST" (some req) h).1.store.replica)
      → is_at a.asset_id req.src_disk r ≡ false
  handle_release_source_none_safe h s req marked a r quiet complete sent unsafe ma mr =
      let rows = (handle_release_source_lem h s req quiet complete).1 in
      let all = ap (λ l. allowed l (in_dir req.dir_key s)) (sent ∙ to_release-nil marked unsafe) in
      let kept = (mem-retain _ (rows_of s.replica) (subst (λ l. Memᴰ r l) rows mr)).1 in
      elim (Bool-cases (is_at a.asset_id req.src_disk r)) [
        | inl t ↦
            let gone =
              released_all req.src_disk (allowed req.release_assets (in_dir req.dir_key s))
                (in_dir req.dir_key s) a r ma
                (subst (λ l. contains a.asset_id l ≡ true) (sym all)
                  (contains-ids (in_dir req.dir_key s) a ma))
                t in
            absurd (false≢true (sym (ap not gone) ∙ kept))
        | inr f ↦ f
      ]
