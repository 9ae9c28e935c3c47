-- ===== src/Store/Directories/Newest.antt =====
-- Whose record of a directory the table keeps.
use immich_go_server.Prelude.{
  ℤ, pos, String, ◌≡◌, refl, sym, ap, ◌∙◌, inl, inr, false, Option, none, some, arith,
  if◌then◌else◌, eqb_ℤ, ◌==◌, eq_iff, lookup, Bool-cases,
}
use immich_go_server.Model.{Directory}
use immich_go_server.Store.{Store, working}
use immich_go_server.Store.Rows.{lookup-upsert, updated}
use immich_go_server.Store.Directories.{save_directory, stamped, newer}

module _ {F : Type 0} where
  -- While the engine works, a write of a directory keeps the record with the greater `LastEvalAt`, and the
  -- one that is there if they are equal (a missing one is inserted); a record without a time has that of
  -- the write. The other directories keep theirs.
  pub save_directory_newest :
      (now : ℤ) (dir : Directory F) (s : Store F) (k : String)
      → lookup k (save_directory now dir (working s)).1.directory ≡ (
          if dir.dir_key == k
          then some
              (updated (stamped now dir) (newer (stamped now dir)) (lookup dir.dir_key s.directory))
          else lookup k s.directory)
  unfolding save_directory
  save_directory_newest now dir s k =
      lookup-upsert dir.dir_key k (stamped now dir) (newer (stamped now dir)) s.directory

  abbrev merged : ℤ → Directory F → Option (Directory F) → Option (Directory F)
  merged now dir o = some (updated (stamped now dir) (newer (stamped now dir)) o)

  row_saved :
      (now : ℤ) (dir : Directory F) (s : Store F) (k : String)
      → dir.dir_key ≡ k
      → lookup k (save_directory now dir (working s)).1.directory
        ≡ merged now dir (lookup k s.directory)
  row_saved now dir s k e =
      save_directory_newest now dir s k
      ∙ rw ((eq_iff dir.dir_key k).1 e) (ap (λ j. merged now dir (lookup j s.directory)) e)

  row_kept :
      (now : ℤ) (dir : Directory F) (s : Store F) (k : String)
      → (dir.dir_key == k) ≡ false
      → lookup k (save_directory now dir (working s)).1.directory ≡ lookup k s.directory
  row_kept now dir s k ne = save_directory_newest now dir s k ∙ rw ne refl

  merged_commute :
      (now : ℤ) (a b : Directory F) (o : Option (Directory F))
      → eqb_ℤ a.last_eval_at (pos 0) ≡ false
      → eqb_ℤ b.last_eval_at (pos 0) ≡ false
      → eqb_ℤ a.last_eval_at b.last_eval_at ≡ false
      → merged now b (merged now a o) ≡ merged now a (merged now b o)
  merged_commute now a b none ta tb differ = ground arith
  merged_commute now a b (some old) ta tb differ = ground arith

  -- Two records of one directory, each with a time and the times distinct, leave the same record of every
  -- directory in whatever order they are written.
  pub save_directory_commute :
      (now : ℤ) (a b : Directory F) (s : Store F) (k : String)
      → a.dir_key ≡ b.dir_key
      → eqb_ℤ a.last_eval_at (pos 0) ≡ false
      → eqb_ℤ b.last_eval_at (pos 0) ≡ false
      → eqb_ℤ a.last_eval_at b.last_eval_at ≡ false
      → lookup k (save_directory now b (working (save_directory now a (working s)).1)).1.directory
        ≡ lookup k (save_directory now a (working (save_directory now b (working s)).1)).1.directory
  save_directory_commute now a b s k same ta tb differ = elim (Bool-cases (a.dir_key == k)) [
    | inl e ↦
        let ka = (eq_iff a.dir_key k).0 e in
        let kb = sym same ∙ ka in
        row_saved now b (save_directory now a (working s)).1 k kb
        ∙ ap (merged now b) (row_saved now a s k ka)
        ∙ merged_commute now a b (lookup k s.directory) ta tb differ
        ∙ sym (
            row_saved now a (save_directory now b (working s)).1 k ka
            ∙ ap (merged now a) (row_saved now b s k kb))
    | inr ne ↦
        let nb = ap (λ j. j == k) (sym same) ∙ ne in
        row_kept now b (save_directory now a (working s)).1 k nb
        ∙ row_kept now a s k ne
        ∙ sym (row_kept now a (save_directory now b (working s)).1 k ne ∙ row_kept now b s k nb)
  ]
