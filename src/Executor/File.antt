-- ===== src/Executor/File.antt =====
-- Opening the target of a file, and copying the file in each of the three modes.
use immich_go_server.Prelude.{
  ℕ, String, ◌≡◌, ◌≢◌, refl, sym, ap, subst, ◌∙◌, ◌⊎◌, inl, inr, false, List, [], ◌∷◌, ◌++◌, Option,
  none, some, Assoc, lookup, lookup-insert, contains, eq_refl, Option-cases, Triple, Triple-bind,
  Triple-then, length,
}
use immich_go_server.Model.{Asset}
use immich_go_server.Migration.{FileAction, ActionMode, mode_skip, mode_range, mode_whole}
use immich_go_server.Executor.{
  Job, Bytes, next_failure, spent, record_progress, create_target, open_target_append, stat_source,
  set_ext, copy_from, copy_sized, copy_mode, copy_file, put_target,
}
use immich_go_server.Executor.Invariant.{IsSafe, IsWorking, put-IsSafe}
use immich_go_server.Executor.Triples.{Failed, io_failed-Failed, record_progress-Triple}
use immich_go_server.Executor.Copy.{IsCopied, copy_from-Triple}

module _ (src : Assoc Bytes) (f : Asset) (c : List String) where
  abbrev id : String
  id = f.asset_id

  -- Before the target is touched.
  abbrev pub Ready : Job → Type 0
  Ready s = IsSafe src s × (s.m.completed ≡ c)

  spent-Ready : (s : Job) → Ready s → Ready (spent s)
  spent-Ready s r =
      (record { same = r.0.same; prefix = r.0.prefix; done = r.0.done; kept = r.0.kept }, r.1)

  module _ (fresh : contains id c ≡ false) (bytes : Bytes)
      (there : lookup id src ≡ some bytes) where
    empty-IsWorking : (s : Job) → Ready s → IsWorking src id c [] bytes (put_target id [] s)
    empty-IsWorking s r = record {
      safe = put-IsSafe src id [] bytes s r.0 (ap (contains id) r.1 ∙ fresh) there;
      comp = r.1;
      here = rw (lookup-insert id id [] s.target, eq_refl);
      whole = there;
      fresh = fresh;
    }

    create_target-Triple :
        Triple Ready (create_target id) (λ _. IsWorking src id c [] bytes) (Failed src id c)
    unfolding create_target
    create_target-Triple = record {
      at = λ s r. elim (Option-cases (next_failure s.outcomes)) [
        | inl n ↦ rw (n, create_target) (empty-IsWorking (spent s) (spent-Ready s r))
        | inr (k, e) ↦ rw (e, create_target) (io_failed-Failed src id c (spent-Ready s r).0)
      ];
    }

    -- A target that is there is a beginning of its source, so the copy can go on behind it.
    abbrev Opened : ℕ → Job → Type 0
    Opened n s = (t : Bytes) × (rest : Bytes) × IsWorking src id c t rest s × (n ≡ length t)

    open_target_append-Triple : Triple Ready (open_target_append id) Opened (Failed src id c)
    unfolding open_target_append
    open_target_append-Triple = record {
      at = λ s r. elim (Option-cases (next_failure s.outcomes)) [
        | inl n ↦ elim (Option-cases (lookup id s.target)) [
          | inl missing ↦
              rw (n, open_target_append, missing)
                ([], bytes, empty-IsWorking (spent s) (spent-Ready s r), refl)
          | inr (t, found) ↦
              let (rest, whole) = r.0.prefix id t found in
              rw (n, open_target_append, found)
                (
                  t,
                  rest,
                  record {
                    safe = (spent-Ready s r).0;
                    comp = r.1;
                    here = found;
                    whole = whole;
                    fresh = fresh;
                  },
                  refl,
                )
        ]
        | inr (k, e) ↦ rw (e, open_target_append) (io_failed-Failed src id c (spent-Ready s r).0)
      ];
    }

    appended-Triple :
        (size n : ℕ)
        → Triple (Opened n) (copy_from f size n) (λ _. IsCopied src c id) (Failed src id c)
    appended-Triple size n = record {
      at = λ s o.
          (subst
              (λ k.
                Triple (IsWorking src id c o.0 o.1) (copy_from f size k) (λ _. IsCopied src c id)
                  (Failed src id c))
              (sym o.3) (copy_from-Triple src f c size o.0 o.1)).at
            s o.2;
    }

    copy_sized_range :
        (size : ℕ)
        → Triple Ready
            (copy_sized f mode_range (some size))
            (λ _. IsCopied src c id)
            (Failed src id c)
    unfolding copy_sized
    copy_sized_range size =
        Triple-bind (open_target_append id) _ open_target_append-Triple (appended-Triple size)

    copy_sized_whole :
        (size : ℕ)
        → Triple Ready
            (copy_sized f mode_whole (some size))
            (λ _. IsCopied src c id)
            (Failed src id c)
    unfolding copy_sized
    copy_sized_whole size = Triple-then (create_target id) _ create_target-Triple λ _.
        Triple-then (record_progress id 0) _ (record_progress-Triple src id c [] bytes 0)
          λ _. copy_from-Triple src f c size [] bytes

  -- The size is known only of a source that is there.
  abbrev Sized : Option ℕ → Job → Type 0
  Sized o s = Ready s × ((o ≡ none) ⊎ ((bytes : Bytes) × (lookup id src ≡ some bytes)))

  stat_source-Triple : Triple Ready (stat_source id) Sized (Failed src id c)
  unfolding stat_source
  stat_source-Triple = record {
    at = λ s r. elim (Option-cases (next_failure s.outcomes)) [
      | inl n ↦ elim (Option-cases (lookup id s.source)) [
        | inl missing ↦ rw (n, stat_source, missing) (spent-Ready s r, inl refl)
        | inr (bytes, found) ↦
            rw (n, stat_source, found)
              (spent-Ready s r, inr (bytes, subst (λ m. lookup id m ≡ some bytes) r.0.same found))
      ]
      | inr (k, e) ↦ rw (e, stat_source) (spent-Ready s r, inl refl)
    ];
  }

  module _ (fresh : contains id c ≡ false) where
    copy_sized-Triple :
        (mode : ActionMode) (o : Option ℕ)
        → mode ≢ mode_skip
        → Triple (Sized o) (copy_sized f mode o) (λ _. IsCopied src c id) (Failed src id c)
    unfolding copy_sized
    copy_sized-Triple mode none apart = record { at = λ s h. (h.0.0, λ e. cc) }
    copy_sized-Triple mode_skip (some size) apart = absurd (apart refl)
    copy_sized-Triple mode_range (some size) apart = record {
      at = λ s h. elim h.1 [
        | inl never ↦ cc
        | inr (bytes, there) ↦ (copy_sized_range fresh bytes there size).at s h.0
      ];
    }
    copy_sized-Triple mode_whole (some size) apart = record {
      at = λ s h. elim h.1 [
        | inl never ↦ cc
        | inr (bytes, there) ↦ (copy_sized_whole fresh bytes there size).at s h.0
      ];
    }

  -- What is completed after a file has been handled.
  abbrev pub completed_by : ActionMode → List String
  completed_by mode_skip = c
  completed_by mode_range = c ++ id ∷ []
  completed_by mode_whole = c ++ id ∷ []

  abbrev pub Handled : ActionMode → Job → Type 0
  Handled mode s = IsSafe src s × (s.m.completed ≡ completed_by mode)

  copy_mode-Triple :
      (mode : ActionMode)
      → ((mode ≢ mode_skip) → contains id c ≡ false)
      → Triple Ready (copy_mode f mode) (λ _. Handled mode) (Failed src id c)
  unfolding copy_mode
  copy_mode-Triple mode_skip fresh = record { at = λ s r. r }
  copy_mode-Triple mode_range fresh =
      Triple-bind (stat_source id) _ stat_source-Triple
        (λ o. copy_sized-Triple (fresh (λ e. cc)) mode_range o (λ e. cc))
  copy_mode-Triple mode_whole fresh =
      Triple-bind (stat_source id) _ stat_source-Triple
        (λ o. copy_sized-Triple (fresh (λ e. cc)) mode_whole o (λ e. cc))

  set_ext-Triple : Triple Ready (set_ext id f.original_path) (λ _. Ready) (Failed src id c)
  unfolding set_ext
  set_ext-Triple = record {
    at = λ s r.
        (record { same = r.0.same; prefix = r.0.prefix; done = r.0.done; kept = r.0.kept }, r.1);
  }

  -- Whatever fails, copying a file keeps the invariant; without an error the file is completed, so
  -- its target is a whole copy of its source.
  pub copy_file-Triple :
      (act : FileAction)
      → ((act.mode ≢ mode_skip) → contains id c ≡ false)
      → Triple Ready (copy_file f act) (λ _. Handled act.mode) (Failed src id c)
  unfolding copy_file
  copy_file-Triple act fresh =
      Triple-then (set_ext id f.original_path) _ set_ext-Triple
        (λ _. copy_mode-Triple act.mode fresh)
