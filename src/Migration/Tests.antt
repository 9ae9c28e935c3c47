-- ===== src/Migration/Tests.antt =====
-- A directory of two assets, the first of them copied.
use mathlib.Core.List.{Mem, Memᴰ, Nodup, Nodup-nil, Nodup-cons}
use immich_go_server.Prelude.{
  ℤ, pos, String, ◌≡◌, ◌↔◌, true, List, [], ◌∷◌, ◌≤ℤ◌, Assoc, lookup, contains,
}
use immich_go_server.Float64.{hundredths}
use immich_go_server.Config.{default}
use immich_go_server.Model.{Asset}
use immich_go_server.Migration.{
  Manifest, all_copied, can_delete_source, count_of, state_in_progress,
}
use immich_go_server.Migration.Copied.{ids, mem_iff, all_copied_iff, can_delete_source_iff}

abbrev asset : String → Asset
asset id = record {
  asset_id = id;
  size_bytes = pos 3;
  checksum = "sum";
  dir_key = "2026/06";
  original_path = "p.jpg";
}

abbrev pub assets : List Asset
assets = asset "a" ∷ asset "b" ∷ []

pub distinct : Nodup (ids assets)
unfolding contains
distinct = Nodup-cons.1 (
  (λ m. cc ((mem_iff "a" ("b" ∷ [])).1 m)),
  Nodup-cons.1 ((λ m. cc ((mem_iff "b" []).1 m)), Nodup-nil),
)

abbrev manifest : Manifest
manifest = record {
  task_id = "t";
  src_disk = "d1";
  dst_disk = "d2";
  dir_key = "";
  total_files = 2;
  total_bytes = pos 0;
  completed = "a" ∷ [];
  partial = ("b", pos 2) ∷ [];
  state = state_in_progress;
}

all_copied_iff_example :
    (all_copied manifest assets ≡ true)
    ↔ ((k : String) → Mem k manifest.completed ↔ Mem k (ids assets))
all_copied_iff_example = all_copied_iff manifest assets distinct

abbrev counts : Assoc ℤ
counts = ("a", pos 2) ∷ ("b", pos 3) ∷ []

can_delete_source_iff_example :
    (can_delete_source assets counts (default hundredths) ≡ true)
    ↔ ((f : Asset) → Memᴰ f assets → pos 2 ≤ℤ count_of (lookup f.asset_id counts))
can_delete_source_iff_example = can_delete_source_iff assets counts (default hundredths)
