-- ===== src/Release/Remote/Rows.antt =====
-- Which rows a request to release a source removes, without the loops of the code.
use mathlib.Core.List.{Memᴰ}
use immich_go_server.Prelude.{
  String, ◌≡◌, refl, ap, ◌⊎◌, inl, inr, ◌↔◌, Bool, true, false, not, ◌&&◌, List, [], ◌∷◌, some,
  arith, ◌==◌, eq_iff, contains, retain, mem-retain, mem_retain_of, Bool-cases,
}
use immich_go_server.Model.{Asset, Replica}
use immich_go_server.Store.{Store, working, rows_of}
use immich_go_server.Store.Replicas.{is_at}
use immich_go_server.Host.{Host}
use immich_go_server.Release.{ReleaseRequest, allowed, is_incomplete, handle_release_source}
use immich_go_server.Release.Remote.{
  is_released, released_all, contains-ids, in_dir, handle_release_source_lem,
}

released_asset :
    (src_disk : String) (allow : List String) (assets : List Asset) (r : Replica)
    → is_released src_disk allow assets r ≡ true
    → (a : Asset) × Memᴰ a assets
      × (contains a.asset_id allow ≡ true)
      × (is_at a.asset_id src_disk r ≡ true)
released_asset src_disk allow [] r h = cc
released_asset src_disk allow (a ∷ rest) r h =
    elim (Bool-cases (contains a.asset_id allow && is_at a.asset_id src_disk r)) [
      | inl t ↦ let (c, i) = both t in (a, Memᴰ.head refl, c, i)
      | inr f ↦
          let (b, m, c, i) = released_asset src_disk allow rest r (rw f at h) in
          (b, Memᴰ.tail m, c, i)
    ]
  where
    both : {x y : Bool} → (x && y) ≡ true → (x ≡ true) × (y ≡ true)
    both e = ground arith

-- The list names the asset, or is empty.
abbrev pub IsListed : List String → Asset → Type 0
IsListed ids a = (ids ≡ []) ⊎ (contains a.asset_id ids ≡ true)

allowed_iff :
    (ids : List String) (assets : List Asset) (a : Asset)
    → Memᴰ a assets
    → (contains a.asset_id (allowed ids assets) ≡ true) ↔ IsListed ids a
allowed_iff [] assets a m = ((λ h. inl refl), λ h. contains-ids assets a m)
allowed_iff (id ∷ ids) assets a m = ((λ h. inr h), λ h. elim h [ inl e ↦ cc | inr c ↦ c ])

module _ {F : Type 0} (s : Store F) (req : ReleaseRequest) where
  -- The replica is at the source disk, and of an asset of the directory that is listed, if any is.
  abbrev pub IsReleased : Replica → Type 0
  IsReleased r =
      (r.disk_serial ≡ req.src_disk)
      × ((a : Asset) × Memᴰ a (rows_of s.asset)
          × (a.dir_key ≡ req.dir_key)
          × (a.asset_id ≡ r.asset_id)
          × IsListed req.release_assets a)

  abbrev here : List Asset
  here = in_dir req.dir_key s

  abbrev goes : Replica → Bool
  goes r = is_released req.src_disk (allowed req.release_assets here) here r

  goes-IsReleased : (r : Replica) → goes r ≡ true → IsReleased r
  goes-IsReleased r h =
      let (a, m, c, at) = released_asset req.src_disk (allowed req.release_assets here) here r h in
      let (there, key) = mem-retain (λ a. a.dir_key == req.dir_key) (rows_of s.asset) m in
      let (same, disk) = parts a r at in
      (
        disk,
        (
          a,
          there,
          (eq_iff a.dir_key req.dir_key).0 key,
          same,
          (allowed_iff req.release_assets here a m).0 c,
        ),
      )
    where
      parts :
          (a : Asset) (r : Replica)
          → is_at a.asset_id req.src_disk r ≡ true
          → (a.asset_id ≡ r.asset_id) × (r.disk_serial ≡ req.src_disk)
      parts a r h = ground (arith, eq_iff r.asset_id a.asset_id, eq_iff r.disk_serial req.src_disk)

  IsReleased-goes : (r : Replica) → IsReleased r → goes r ≡ true
  IsReleased-goes r (disk, (a, there, key, same, listed)) =
      let m =
        mem_retain_of (λ a. a.dir_key == req.dir_key) (rows_of s.asset) there
          ((eq_iff a.dir_key req.dir_key).1 key) in
      released_all req.src_disk (allowed req.release_assets here) here a r m
        ((allowed_iff req.release_assets here a m).1 listed)
        (ground
          (arith, disk, same, eq_iff r.asset_id a.asset_id, eq_iff r.disk_serial req.src_disk))

  -- A complete request to the node that it names, while the engine works, is answered with 200. The rows that
  -- it leaves are those of before, in their order, less exactly the replicas at the source disk of the
  -- directory's assets that are listed, or of all its assets if none is listed.
  pub handle_release_source_rows :
      (h : Host F)
      → h.store ≡ working s
      → is_incomplete req ≡ false
      → ((handle_release_source req.release_node "POST" (some req) h).0 ≡ 200)
        × ((left : Replica → Bool) × (rows_of
                (handle_release_source req.release_node "POST" (some req) h).1.store.replica
              ≡ retain left (rows_of s.replica))
            × ((r : Replica) → (left r ≡ false) ↔ IsReleased r))
  handle_release_source_rows h quiet complete =
      let (answer, rows) = handle_release_source_lem h s req quiet complete in
      (
        answer,
        (
          (λ r. not (goes r)),
          rows,
          λ r. (
            (λ f. goes-IsReleased r (ground arith)),
            λ released. ap not (IsReleased-goes r released),
          ),
        ),
      )
