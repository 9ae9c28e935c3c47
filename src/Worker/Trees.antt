-- ===== src/Worker/Trees.antt =====
-- The files of one directory on one disk among all files.
use immich_go_server.Prelude.{
  String, ◌≡◌, refl, ap, ◌∙◌, inl, inr, not, List, [], ◌∷◌, ◌++◌, Option, none, some, if◌then◌else◌,
  ◌==◌, eq_refl, Assoc, lookup, lookup-insert_self, lookup-erase, retain, Bool-cases,
}
use immich_go_server.Migration.{Manifest}
use immich_go_server.Executor.{Bytes}
use immich_go_server.Host.{BlobFile, find_file}
use immich_go_server.Worker.{is_in, tree, files_of, put_tree, set_manifest}

append_nil : (xs : Assoc Bytes) → xs ++ [] ≡ xs
append_nil [] = refl
append_nil (x ∷ xs) = ap (λ l. x ∷ l) (append_nil xs)

module _ (root dir_key : String) where
  -- A file is found exactly as its directory has it.
  pub find_file-tree :
      (id : String) (files : List BlobFile)
      → find_file root dir_key id files ≡ lookup id (tree root dir_key files)
  unfolding lookup
  find_file-tree id [] = refl
  find_file-tree id (f ∷ fs) = elim (Bool-cases (f.root == root)) [
    | inl t ↦ elim (Bool-cases (f.dir_key == dir_key)) [
      | inl d ↦
          rw (t, d) (ap (λ o. if f.asset_id == id then some f.bytes else o) (find_file-tree id fs))
      | inr n ↦ rw (t, n) (find_file-tree id fs)
    ]
    | inr n ↦ rw n (find_file-tree id fs)
  ]

  tree-append :
      (xs ys : List BlobFile)
      → tree root dir_key (xs ++ ys) ≡ tree root dir_key xs ++ tree root dir_key ys
  tree-append [] ys = refl
  tree-append (f ∷ fs) ys = elim (Bool-cases (is_in root dir_key f)) [
    | inl t ↦ rw t (ap (λ l. (f.asset_id, f.bytes) ∷ l) (tree-append fs ys))
    | inr n ↦ rw n (tree-append fs ys)
  ]

  tree-files_of : (target : Assoc Bytes) → tree root dir_key (files_of root dir_key target) ≡ target
  tree-files_of [] = refl
  tree-files_of ((id, bytes) ∷ rest) =
      rw (eq_refl root, eq_refl dir_key) (ap (λ l. (id, bytes) ∷ l) (tree-files_of rest))

  tree-others :
      (files : List BlobFile)
      → tree root dir_key (retain (λ f. not (is_in root dir_key f)) files) ≡ []
  tree-others [] = refl
  tree-others (f ∷ fs) = elim (Bool-cases (is_in root dir_key f)) [
    | inl t ↦ rw t (tree-others fs)
    | inr n ↦ rw (n, n) (tree-others fs)
  ]

  -- What is put into a directory is what is in it.
  pub tree-put_tree :
      (target : Assoc Bytes) (files : List BlobFile)
      → tree root dir_key (put_tree root dir_key target files) ≡ target
  tree-put_tree target files =
      tree-append (files_of root dir_key target) (retain (λ f. not (is_in root dir_key f)) files)
      ∙ rw (tree-files_of target, tree-others files) (append_nil target)

pub lookup-set_manifest :
    (path : String) (o : Option Manifest) (ms : Assoc Manifest)
    → lookup path (set_manifest path o ms) ≡ o
lookup-set_manifest path none ms = lookup-erase path path ms ∙ rw (eq_refl path) refl
lookup-set_manifest path (some m) ms = lookup-insert_self path m ms
