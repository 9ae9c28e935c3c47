-- ===== src/Executor/Stale.antt =====
-- A manifest that was left behind by another run, with a file that the source lacks.
use mathlib.Core.List.{Nodup}
use mathlib.Core.Bool.{false≢true}
use immich_go_server.Prelude.{
  ℕ, zero, suc, ◌+◌, String, ◌≡◌, ◌≢◌, refl, sym, ◌∙◌, inl, inr, Bool, true, false, List, [], ◌∷◌,
  Option, none, some, arith, contains, Bool-cases, Triple, Triple-bind, Triple-then, Post, Result,
  ok, err, require, take, drop, length,
}
use immich_go_server.Model.{Asset}
use immich_go_server.Migration.{
  FileAction, ActionMode, mode_skip, mode_range, mode_whole, all_copied, state_verified,
  mark_completed, set_partial,
}
use immich_go_server.Migration.Copied.{ids, mem_iff, all_copied_iff}
use immich_go_server.Migration.Resume.{contains-append}
use immich_go_server.Executor.{
  Job, Error, Bytes, IoAction, set_ext, stat_source, open_source, create_target, open_target_append,
  write_target, close_target, read_source, save_manifest, record_progress, record_completed,
  copy_loop, copy_from, copy_sized, copy_mode, copy_file, copy_all, find_asset, no_asset, settle,
  run, size_mismatch,
}
use immich_go_server.Executor.Triples.{save_manifest_frame}

module _ (k : String) (state : String) where
  abbrev IsMarked : Job → Type 0
  IsMarked s = (contains k s.m.completed ≡ true) × (s.m.state ≡ state)

  abbrev Keeps : {A : Type 0} → IoAction A → Type 0
  Keeps act = Triple IsMarked act (λ _. IsMarked) (λ _. IsMarked)

  keep :
      {A : Type 0} (r : Result Error A × Job)
      → IsMarked r.1
      → Post (λ _. IsMarked) (λ _. IsMarked) r
  keep (ok a, s) h = h
  keep (err e, s) h = h

  unkeep :
      {A : Type 0} (r : Result Error A × Job)
      → Post (λ _. IsMarked) (λ _. IsMarked) r
      → IsMarked r.1
  unkeep (ok a, s) h = h
  unkeep (err e, s) h = h

  Keeps-of_frame : {A : Type 0} (act : IoAction A) → ((s : Job) → (act s).1.m ≡ s.m) → Keeps act
  Keeps-of_frame act f = record { at = λ s h. keep (act s) (rw (f s) h) }

  Keeps-require : (b : Bool) (e : Error) → Keeps (require b e)
  Keeps-require b e = Keeps-of_frame (require b e) (λ s. ground arith)

  record_completed-Keeps : (id : String) → Keeps (record_completed id)
  unfolding mark_completed
  record_completed-Keeps id = record {
    at = λ s h. (ground (arith, contains-append k s.m.completed (id ∷ []), h.0), h.1);
  }

  set_ext-Keeps : (id : String) (path : String) → Keeps (set_ext id path)
  unfolding set_ext
  set_ext-Keeps id path = Keeps-of_frame (set_ext id path) (λ s. ground arith)

  stat_source-Keeps : (id : String) → Keeps (stat_source id)
  unfolding stat_source
  stat_source-Keeps id = Keeps-of_frame (stat_source id) (λ s. ground arith)

  open_source-Keeps : (id : String) (offset : ℕ) → Keeps (open_source id offset)
  unfolding open_source
  open_source-Keeps id offset = Keeps-of_frame (open_source id offset) (λ s. ground arith)

  create_target-Keeps : (id : String) → Keeps (create_target id)
  unfolding create_target
  create_target-Keeps id = Keeps-of_frame (create_target id) (λ s. ground arith)

  open_target_append-Keeps : (id : String) → Keeps (open_target_append id)
  unfolding open_target_append
  open_target_append-Keeps id = Keeps-of_frame (open_target_append id) (λ s. ground arith)

  write_target-Keeps : (id : String) (chunk : Bytes) → Keeps (write_target id chunk)
  unfolding write_target
  write_target-Keeps id chunk = Keeps-of_frame (write_target id chunk) (λ s. ground arith)

  read_source-Keeps : Keeps read_source
  unfolding read_source
  read_source-Keeps = Keeps-of_frame read_source (λ s. ground arith)

  close_target-Keeps : Keeps close_target
  unfolding close_target
  close_target-Keeps = Keeps-of_frame close_target (λ s. ground arith)

  save_manifest-Keeps : Keeps save_manifest
  save_manifest-Keeps = Keeps-of_frame save_manifest (λ s. (save_manifest_frame s).0)

  record_progress-Keeps : (id : String) (n : ℕ) → Keeps (record_progress id n)
  unfolding set_partial
  record_progress-Keeps id n = record { at = λ s h. h }

  copy_loop-Keeps :
      (chunk fuel : ℕ) (id : String) (rest : Bytes) (written : ℕ)
      → Keeps (copy_loop chunk fuel id rest written)
  unfolding copy_loop
  copy_loop-Keeps chunk zero id rest written = record { at = λ s h. h }
  copy_loop-Keeps chunk (suc fuel) id [] written =
      Triple-then read_source _ read_source-Keeps λ _. record { at = λ s h. h }
  copy_loop-Keeps chunk (suc fuel) id (b ∷ bs) written =
      Triple-then read_source _ read_source-Keeps λ _.
        Triple-then (write_target id (take chunk (b ∷ bs))) _ (write_target-Keeps id _) λ _.
          Triple-then (record_progress id (written + length (take chunk (b ∷ bs)))) _
            (record_progress-Keeps id (written + length (take chunk (b ∷ bs))))
            λ _.
              Triple-then save_manifest
                (λ s.
                  copy_loop chunk fuel id (drop chunk (b ∷ bs))
                    (written + length (take chunk (b ∷ bs))) s)
                save_manifest-Keeps
                λ _.
                  copy_loop-Keeps chunk fuel id (drop chunk (b ∷ bs))
                    (written + length (take chunk (b ∷ bs)))

  copy_from-Keeps : (f : Asset) (size offset : ℕ) → Keeps (copy_from f size offset)
  unfolding copy_from
  copy_from-Keeps f size offset =
      Triple-bind (open_source f.asset_id offset) _ (open_source-Keeps f.asset_id offset) λ bytes.
        Triple-bind (copy_loop _ _ f.asset_id bytes offset) _
          (copy_loop-Keeps _ _ f.asset_id bytes offset)
          λ written. Triple-then close_target _ close_target-Keeps λ _.
            Triple-then (require _ (size_mismatch f.asset_id)) _ (Keeps-require _ _) λ _.
              Triple-then (record_completed f.asset_id) _ (record_completed-Keeps f.asset_id)
                λ _. save_manifest-Keeps

  copy_sized-Keeps :
      (f : Asset) (mode : ActionMode) (size : Option ℕ) → Keeps (copy_sized f mode size)
  unfolding copy_sized
  copy_sized-Keeps f mode none = record { at = λ s h. h }
  copy_sized-Keeps f mode_skip (some size) = record { at = λ s h. h }
  copy_sized-Keeps f mode_range (some size) =
      Triple-bind (open_target_append f.asset_id) _ (open_target_append-Keeps f.asset_id)
        (copy_from-Keeps f size)
  copy_sized-Keeps f mode_whole (some size) =
      Triple-then (create_target f.asset_id) _ (create_target-Keeps f.asset_id) λ _.
        Triple-then (record_progress f.asset_id 0) _ (record_progress-Keeps f.asset_id 0)
          λ _. copy_from-Keeps f size 0

  copy_mode-Keeps : (f : Asset) (mode : ActionMode) → Keeps (copy_mode f mode)
  unfolding copy_mode
  copy_mode-Keeps f mode_skip = record { at = λ s h. h }
  copy_mode-Keeps f mode_range =
      Triple-bind (stat_source f.asset_id) _ (stat_source-Keeps f.asset_id)
        (copy_sized-Keeps f mode_range)
  copy_mode-Keeps f mode_whole =
      Triple-bind (stat_source f.asset_id) _ (stat_source-Keeps f.asset_id)
        (copy_sized-Keeps f mode_whole)

  copy_all-Keeps : (source : List Asset) (acts : List FileAction) → Keeps (copy_all source acts)
  unfolding copy_all copy_file
  copy_all-Keeps source [] = record { at = λ s h. h }
  copy_all-Keeps source (act ∷ acts) =
      Triple-then (copy_file (find_asset act.asset_id source no_asset) act) _
        (Triple-then (set_ext _ _) _ (set_ext-Keeps _ _) (λ _. copy_mode-Keeps _ act.mode))
        (λ _. copy_all-Keeps source acts)

-- What `settle` answers while a completed file is not of the source.
settle_stale :
    (k state : String) (source : List Asset) (r : Result Error Unit × Job)
    → Nodup (ids source)
    → contains k (ids source) ≡ false
    → state ≢ state_verified
    → IsMarked k state r.1
    → (settle source r).0 ≢ ok state_verified
unfolding settle
settle_stale k state source (err e, s) n absent old h = λ e. cc
settle_stale k state source (ok _, s) n absent old h = elim (Bool-cases (all_copied s.m source)) [
  | inl t ↦ absurd (
      false≢true (
        sym absent
        ∙ (mem_iff k (ids source)).1
            (((all_copied_iff s.m source n).0 t k).0 ((mem_iff k s.m.completed).0 h.0))))
  | inr f ↦ rw f (λ e. ground (arith, old, h.1))
]

-- A manifest in which a file counts as completed that the source lacks (one that an earlier run on
-- the same target left behind) keeps a run from ever being verified, even if every file is copied.
pub run_stale :
    (k : String) (source : List Asset) (s : Job)
    → Nodup (ids source)
    → contains k (ids source) ≡ false
    → contains k s.m.completed ≡ true
    → s.m.state ≢ state_verified
    → (run source s).0 ≢ ok state_verified
unfolding run
run_stale k source s n absent done old =
    settle_stale k s.m.state source _ n absent old
      (unkeep k s.m.state _ ((copy_all-Keeps k s.m.state source _).at s (done, refl)))
