-- ===== src/Cluster/Tests.antt =====
-- Three nodes that report one directory and one disk.
use mathlib.Core.List.{Memᴰ}
use mathlib.Core.List.Memᴰ
use immich_go_server.Prelude.{
  arith, Bool-cases, ltb_ℤ, inl, inr, ◌≤ℤ◌, ℤ, pos, negsuc, String, ◌≡◌, ◌≢◌, refl, true, false,
  List, [], ◌∷◌, some, lookup, insert, less, All, ◌*ℤ◌,
}
use immich_go_server.Float64.{hundredths, of_int_hundredths}
use immich_go_server.Model.{Directory, Disk, Node, tier_warm}
use immich_go_server.Cluster.{
  supersedes, merge_directories, merge_disks, merge_disk, all_directories,
  aggregate_directory_stats, aggregate_disk_stats, elect_coordinator,
}
use immich_go_server.Cluster.Directories.{aggregate_directory_stats_newest}
use immich_go_server.Cluster.Agreement.{IsComparable, elect_coordinator_agreement}
use immich_go_server.Cluster.Election.{beats, elect_coordinator_best}

abbrev dir : String → ℤ → Directory ℤ
dir node time = record {
  dir_key = "2026/06";
  node_id = node;
  disk_serial = "d1";
  tier = tier_warm;
  temperature = pos 0;
  total_bytes = pos 0;
  access_score = pos 0;
  last_eval_at = time;
}

abbrev disk : ℤ → Disk ℤ
disk seconds = record {
  disk_serial = "d1";
  label = "";
  capacity_bytes = pos 100;
  free_bytes = pos 60;
  tier = tier_warm;
  mounted_node_id = "n1";
  online_seconds = seconds;
  online_score = pos 0;
  first_seen_at = pos 0;
  last_tick_at = pos 0;
  last_seen_at = pos 900;
  suspect = false;
  blob_root = "/d";
}

abbrev node : String → ℤ → Node ℤ
node id time = record {
  node_id = id;
  node_url = "";
  battery_level = pos 0;
  online_score = time;
  disks = disk time ∷ [];
  directories = dir id time ∷ [];
}

abbrev nodes : List (Node ℤ)
nodes = node "n1" (pos 100) ∷ node "n2" (pos 200) ∷ node "n3" (pos 200) ∷ []

newest : lookup "2026/06" (aggregate_directory_stats nodes) ≡ some (dir "n3" (pos 200))
unfolding aggregate_directory_stats merge_directories supersedes lookup insert less
newest = refl

aggregate_directory_stats_newest_example :
    Memᴰ (dir "n3" (pos 200)) (all_directories nodes)
    × ((dir "n3" (pos 200)).dir_key ≡ "2026/06")
    × ((e : Directory ℤ)
        → Memᴰ e (all_directories nodes)
        → e.dir_key ≡ "2026/06"
        → (e.last_eval_at ≤ℤ pos 200) × (e.last_eval_at ≡ pos 200 → less "n3" e.node_id ≡ false))
aggregate_directory_stats_newest_example =
    aggregate_directory_stats_newest "2026/06" nodes (dir "n3" (pos 200)) newest

longest : lookup "d1" (aggregate_disk_stats nodes) ≡ some (disk (pos 200))
unfolding aggregate_disk_stats merge_disks merge_disk lookup insert
longest = refl

named : All (λ a. a.node_id ≢ "") nodes
named = ((λ e. cc), ((λ e. cc), ((λ e. cc), tt)))

above : hundredths.lt (hundredths.of_int (negsuc 0)) (pos 100) ≡ true
unfolding of_int_hundredths ◌*ℤ◌
above = refl

elect_coordinator_best_example :
    (b : Node ℤ) × (elect_coordinator hundredths nodes ≡ b.node_id)
    × Memᴰ b nodes
    × All (λ a. beats hundredths a b ≡ false) nodes
elect_coordinator_best_example =
    elect_coordinator_best hundredths (node "n1" (pos 100))
      (node "n2" (pos 200) ∷ node "n3" (pos 200) ∷ []) named above

comparable : (a b : ℤ) → IsComparable hundredths a b
comparable a b = elim (Bool-cases (ltb_ℤ a b)) [
  | inl l ↦ inl l
  | inr n ↦ elim (Bool-cases (ltb_ℤ b a)) [ inl l ↦ inr (inl l) | inr m ↦ inr (inr (ground arith)) ]
]

rotated : {A : Type 0} {a : A} (x y z : A) → Memᴰ a (x ∷ y ∷ z ∷ []) → Memᴰ a (y ∷ z ∷ x ∷ [])
rotated x y z (Memᴰ.head e) = Memᴰ.tail (Memᴰ.tail (Memᴰ.head e))
rotated x y z (Memᴰ.tail (Memᴰ.head e)) = Memᴰ.head e
rotated x y z (Memᴰ.tail (Memᴰ.tail (Memᴰ.head e))) = Memᴰ.tail (Memᴰ.head e)
rotated x y z (Memᴰ.tail (Memᴰ.tail (Memᴰ.tail m))) = absurd (Memᴰ.not-nil m)

higher : hundredths.lt (hundredths.of_int (negsuc 0)) (pos 200) ≡ true
unfolding of_int_hundredths ◌*ℤ◌
higher = refl

elect_coordinator_agreement_example :
    elect_coordinator hundredths nodes
    ≡ elect_coordinator hundredths
        (node "n2" (pos 200) ∷ node "n3" (pos 200) ∷ node "n1" (pos 100) ∷ [])
elect_coordinator_agreement_example =
    elect_coordinator_agreement hundredths (node "n1" (pos 100)) (node "n2" (pos 200))
      (node "n2" (pos 200) ∷ node "n3" (pos 200) ∷ [])
      (node "n3" (pos 200) ∷ node "n1" (pos 100) ∷ []) named above higher
      (λ a. (rotated _ _ _, λ m. rotated _ _ _ (rotated _ _ _ m)))
      (λ a b _ _. comparable a.online_score b.online_score)
