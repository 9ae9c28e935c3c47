-- ===== src/Store/Views.antt =====
-- internal/store/store.go: the state of the node, as its peers are told.
use immich_go_server.Prelude.{pos, String, List, [], map, Result, ok, err}
use immich_go_server.Model.{Disk, Directory, DiskState}
use immich_go_server.Messages.{StatePayload, DirectoryDto, directory_from_model}
use immich_go_server.Store.{Store, StoreError}
use immich_go_server.Store.Disks.{list_disks}
use immich_go_server.Store.Directories.{list_directories}

module _ {F : Type 0} where
  abbrev pub disk_state : Disk F → DiskState
  disk_state d = record {
    disk_serial = d.disk_serial;
    label = d.label;
    tier = d.tier;
    free_bytes = d.free_bytes;
    capacity_bytes = d.capacity_bytes;
    mounted_node_id = d.mounted_node_id;
    online_seconds = d.online_seconds;
    blob_root = d.blob_root;
  }

  abbrev pub payload : String → List DiskState → List (DirectoryDto F) → StatePayload F
  payload node_id disks directories = record {
    node_id = node_id;
    disks = disks;
    directories = directories;
    signed_at = pos 0;
    signature = "";
  }

  abbrev readable : Result StoreError (List (Directory F)) → List (Directory F)
  readable (ok dirs) = dirs
  readable (err _) = []

  -- Without the disks nothing is told; without the directories, that there is none.
  abbrev pub state_with : Result StoreError (List (Disk F)) → Store F → StatePayload F × Store F
  state_with (err _) s = (payload s.node_id [] [], s)
  state_with (ok disks) s =
      let (dirs, s') = list_directories s in
      (payload s.node_id (map disk_state disks) (map directory_from_model (readable dirs)), s')

  unfoldable pub get_state : Store F → StatePayload F × Store F
  get_state s = let (disks, s') = list_disks s in state_with disks s'
