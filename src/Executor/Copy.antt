-- ===== src/Executor/Copy.antt =====
-- Copying one file keeps the invariant whatever fails, and on success the target is a whole copy.
use mathlib.Core.List.{append_assoc, append-nil}
use immich_go_server.Prelude.{
  ℕ, zero, suc, ◌+◌, ◌<◌, String, ◌≡◌, ◌≢◌, refl, sym, ap, subst, ◌∙◌, ◌⊎◌, inl, inr, Bool, true,
  false, List, [], ◌∷◌, ◌++◌, some, arith, Assoc, lookup, contains, eq_iff, eqb, Option-cases,
  Triple, Triple-bind, Triple-then, Triple-weaken, Post, ok, err, if◌then◌else◌, leb, ◌&&◌, require,
  take, drop, take-append-drop, length, length-append, length-drop-lt, append-length-drop,
}
use immich_go_server.Model.{Asset}
use immich_go_server.Migration.{mark_completed}
use immich_go_server.Executor.{
  Job, Error, out_of_fuel, io_failed, spent, size_mismatch, Bytes, next_failure, read_source,
  write_target, close_target, save_manifest, record_progress, record_completed, open_source,
  copy_loop, copy_from, buf_size,
}
use immich_go_server.Executor.Invariant.{IsSafe, IsWorking, spent-IsWorking}
use immich_go_server.Executor.Triples.{
  Failed, io_failed-Failed, save_manifest-lift, save_manifest-IsSafe, save_manifest_frame,
  read_source-Triple, write_target-Triple, close_target-Triple, record_progress-Triple,
  save_manifest-Triple,
}

split_rest :
    (src : Assoc Bytes) (id : String) (c : List String) (t rest : Bytes) (n : ℕ) (s : Job)
    → IsWorking src id c t rest s
    → IsWorking src id c t (take n rest ++ drop n rest) s
split_rest src id c t rest n s w =
    subst (λ r. IsWorking src id c t r s) (sym (take-append-drop n rest)) w

-- The loop moves all that is left to the target, and returns the length of the whole.
abbrev Copied : Assoc Bytes → String → List String → Bytes → Bytes → ℕ → Job → Type 0
Copied src id c t rest n s = IsWorking src id c (t ++ rest) [] s × (n ≡ length (t ++ rest))

module _ (src : Assoc Bytes) (id : String) (c : List String) (chunk : ℕ)
    (some_room : 0 < chunk) where
  copy_loop-Triple :
      (fuel : ℕ) (t rest : Bytes)
      → length rest < fuel
      → Triple
          (IsWorking src id c t rest)
          (copy_loop chunk fuel id rest (length t))
          (Copied src id c t rest)
          (Failed src id c)
  unfolding copy_loop
  copy_loop-Triple zero t rest h = absurd (omega arith)
  copy_loop-Triple (suc fuel) t [] h =
      Triple-then read_source _ (read_source-Triple src id c t []) (λ _. record {
        at = λ s w. (
          subst (λ u. IsWorking src id c u [] s) (sym (append-nil t)) w,
          ap length (sym (append-nil t)),
        );
      })
  copy_loop-Triple (suc fuel) t (b ∷ bs) h =
      let now = take chunk (b ∷ bs) in
      let later = drop chunk (b ∷ bs) in
      Triple-weaken {P = IsWorking src id c t (now ++ later)} {Q = Copied src id c (t ++ now) later}
        (λ s w. split_rest src id c t (b ∷ bs) chunk s w)
        (λ n s q.
          subst (λ u. IsWorking src id c u [] s × (n ≡ length u))
            (append_assoc t now later ∙ ap (◌++◌ t) (take-append-drop chunk (b ∷ bs))) q)
        (Triple-then read_source _ (read_source-Triple src id c t (now ++ later)) (λ _.
          Triple-then (write_target id now) _ (write_target-Triple src id c t now later) (λ _.
            Triple-then (record_progress id (length t + length now)) _
              (record_progress-Triple src id c (t ++ now) later (length t + length now))
              (λ _.
                Triple-then save_manifest _ (save_manifest-Triple src id c (t ++ now) later) (λ _.
                  subst
                    (λ n.
                      Triple (IsWorking src id c (t ++ now) later) (copy_loop chunk fuel id later n)
                        (Copied src id c (t ++ now) later) (Failed src id c))
                    (length-append t now)
                    (copy_loop-Triple fuel (t ++ now) later
                      (omega (arith, length-drop-lt chunk b bs some_room))))))))

contains-snoc :
    (c : List String) (id k : String)
    → contains k (c ++ id ∷ []) ≡ true
    → (contains k c ≡ true) ⊎ (id ≡ k)
unfolding contains
contains-snoc [] id k h = ground (arith, eq_iff id k)
contains-snoc (x ∷ c) id k h = ground (arith, contains-snoc c id k)

contains-grow :
    (c : List String) (id k : String) → contains k c ≡ true → contains k (c ++ id ∷ []) ≡ true
unfolding contains
contains-grow [] id k h = cc
contains-grow (x ∷ c) id k h = ground (arith, contains-grow c id k)

-- What a file that has been copied without an error leaves behind.
abbrev pub IsCopied : Assoc Bytes → List String → String → Job → Type 0
IsCopied src c id s = IsSafe src s × (s.m.completed ≡ c ++ id ∷ [])

abbrev mark : String → Job → Job
mark id s = record s { m = mark_completed s.m id }

mark-IsCopied :
    (src : Assoc Bytes) (id : String) (c : List String) (u : Bytes) (s : Job)
    → IsWorking src id c u [] s
    → IsCopied src c id (mark id s)
unfolding mark_completed
mark-IsCopied src id c u s w = (
  record {
    same = w.safe.same;
    prefix = w.safe.prefix;
    done = λ k h. elim (contains-snoc s.m.completed id k h) [
      | inl old ↦ w.safe.done k old
      | inr e ↦
          subst
            (λ j. (bytes : Bytes) × (lookup j s.target ≡ some bytes) × (lookup j src ≡ some bytes))
            e (u, w.here, w.whole ∙ ap some (append-nil u))
    ];
    kept = λ k h. contains-grow s.m.completed id k (w.safe.kept k h);
  },
  ap (λ l. l ++ id ∷ []) w.comp,
)

save-IsCopied :
    (src : Assoc Bytes) (c : List String) (id : String)
    → Triple (IsCopied src c id) save_manifest (λ _. IsCopied src c id) (Failed src id c)
save-IsCopied src c id =
    save_manifest-lift _ _ _ (λ s q.
      (save_manifest-IsSafe src s q.0, ap (λ m. m.completed) (save_manifest_frame s).0 ∙ q.1))

require-Triple :
    (P : Job → Type 0) (b : Bool) (e : Error) (src : Assoc Bytes) (id : String) (c : List String)
    → e ≢ out_of_fuel
    → ((s : Job) → P s → IsSafe src s)
    → Triple P (require b e) (λ _ s. P s × (b ≡ true)) (Failed src id c)
require-Triple P true e src id c ne f = record { at = λ s h. (h, refl) }
require-Triple P false e src id c ne f = record { at = λ s h. (f s h, ne) }

module _ (src : Assoc Bytes) (f : Asset) (c : List String) where
  abbrev id : String
  id = f.asset_id

  opened_at :
      (refused : Bool) (t rest : Bytes) (s : Job)
      → IsWorking src id c t rest s
      → Post
          (λ bytes s'. IsWorking src id c t rest s' × (bytes ≡ rest))
          (Failed src id c)
          (if refused then err io_failed else ok (drop (length t) (t ++ rest)), s)
  opened_at true t rest s w = io_failed-Failed src id c w.safe
  opened_at false t rest s w = (w, append-length-drop t rest)

  open_source-Triple :
      (t rest : Bytes)
      → Triple
          (IsWorking src id c t rest)
          (open_source id (length t))
          (λ bytes s. IsWorking src id c t rest s × (bytes ≡ rest))
          (Failed src id c)
  unfolding open_source
  open_source-Triple t rest = record {
    at = λ s w. elim (Option-cases (next_failure s.outcomes)) [
      | inl n ↦
          rw (n, open_source, w.safe.same, w.whole)
            (opened_at (s.remote && leb (length (t ++ rest)) (length t)) t rest (spent s)
              (spent-IsWorking src id c t rest s w))
      | inr (k, e) ↦
          rw (e, open_source) (io_failed-Failed src id c (spent-IsWorking src id c t rest s w).safe)
    ];
  }

  opened-Triple :
      (t rest bytes : Bytes)
      → Triple
          (λ s. IsWorking src id c t rest s × (bytes ≡ rest))
          (copy_loop buf_size (suc (length bytes)) id bytes (length t))
          (Copied src id c t rest)
          (Failed src id c)
  opened-Triple t rest bytes = record {
    at = λ s h.
        (subst
            (λ b.
              Triple (IsWorking src id c t rest)
                (copy_loop buf_size (suc (length b)) id b (length t)) (Copied src id c t rest)
                (Failed src id c))
            (sym h.1)
            (copy_loop-Triple src id c buf_size (omega arith) (suc (length rest)) t rest
              (omega arith))).at
          s h.0;
  }

  mark-Triple :
      (u : Bytes) (b : Bool)
      → Triple
          (λ s. IsWorking src id c u [] s × (b ≡ true))
          (record_completed id)
          (λ _. IsCopied src c id)
          (Failed src id c)
  mark-Triple u b = record { at = λ s h. mark-IsCopied src id c u s h.0 }

  -- From the opening of the source on.
  pub copy_from-Triple :
      (size : ℕ) (t rest : Bytes)
      → Triple
          (IsWorking src id c t rest)
          (copy_from f size (length t))
          (λ _. IsCopied src c id)
          (Failed src id c)
  unfolding copy_from
  copy_from-Triple size t rest =
      Triple-bind (open_source id (length t)) _ (open_source-Triple t rest) λ bytes.
        Triple-bind (copy_loop buf_size (suc (length bytes)) id bytes (length t)) _
          (opened-Triple t rest bytes)
          λ written.
            Triple-then close_target _
              (Triple-weaken (λ s h. h.0) (λ _ s w. w)
                (close_target-Triple src id c (t ++ rest) []))
              λ _.
                Triple-then (require (eqb written size) (size_mismatch id)) _
                  (require-Triple (IsWorking src id c (t ++ rest) []) (eqb written size)
                    (size_mismatch id) src id c (λ e. cc) (λ s w. w.safe))
                  λ _.
                    Triple-then (record_completed id) _ (mark-Triple (t ++ rest) (eqb written size))
                      λ _. save-IsCopied src c id
