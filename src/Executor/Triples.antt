-- ===== src/Executor/Triples.antt =====
-- What each call of the blob store does to the invariant.
use mathlib.Core.List.{append_assoc}
use immich_go_server.Prelude.{
  ℕ, zero, suc, String, ◌≡◌, ◌≢◌, sym, ap, subst, ◌∙◌, ◌⊎◌, inl, inr, true, List, ◌++◌, Option,
  none, some, arith, Assoc, contains, Option-cases, Triple, Post, ok, take, drop,
}
use immich_go_server.Migration.{Manifest, set_partial}
use immich_go_server.Executor.{
  Job, Error, io_failed, out_of_fuel, Bytes, Outcome, next_failure, spent, after_failure,
  read_source, write_target, close_target, save_manifest, record_progress,
}
use immich_go_server.Executor.Invariant.{
  completed_in, IsSafe, IsWorking, spent-IsWorking, put-IsWorking, split_write,
}

module _ (src : Assoc Bytes) (id : String) (c : List String) where
  abbrev pub Work : Bytes → Bytes → Job → Type 0
  Work t rest = IsWorking src id c t rest

  -- After an error the invariant holds, and the error is one of the code's own.
  abbrev pub Failed : Error → Job → Type 0
  Failed e s = IsSafe src s × (e ≢ out_of_fuel)

  pub io_failed-Failed : {s : Job} → IsSafe src s → Failed io_failed s
  io_failed-Failed v = (v, λ e. cc)

  Outcome-cases :
      (os : List Outcome) → (next_failure os ≡ none) ⊎ ((k : ℕ) × (next_failure os ≡ some k))
  Outcome-cases os = Option-cases (next_failure os)

  pub read_source-Triple :
      (t rest : Bytes) → Triple (Work t rest) read_source (λ _. Work t rest) Failed
  unfolding read_source
  read_source-Triple t rest = record {
    at = λ s w. elim (Outcome-cases s.outcomes) [
      | inl n ↦ rw (n, read_source) (spent-IsWorking src id c t rest s w)
      | inr (k, f) ↦
          rw (f, read_source) (io_failed-Failed (spent-IsWorking src id c t rest s w).safe)
    ];
  }

  pub close_target-Triple :
      (t rest : Bytes) → Triple (Work t rest) close_target (λ _. Work t rest) Failed
  unfolding close_target
  close_target-Triple t rest = record {
    at = λ s w. elim (Outcome-cases s.outcomes) [
      | inl n ↦ rw (n, close_target) (spent-IsWorking src id c t rest s w)
      | inr (k, f) ↦
          rw (f, close_target) (io_failed-Failed (spent-IsWorking src id c t rest s w).safe)
    ];
  }

  -- Also a write that stops half way leaves a beginning of the source.
  pub write_target-Triple :
      (t chunk rest : Bytes)
      → Triple (Work t (chunk ++ rest)) (write_target id chunk) (λ _. Work (t ++ chunk) rest) Failed
  unfolding write_target
  write_target-Triple t chunk rest = record {
    at = λ s w. elim (Outcome-cases s.outcomes) [
      | inl n ↦
          rw (n, write_target, w.here)
            (put-IsWorking src id c t (chunk ++ rest) (t ++ chunk) rest (spent s)
              (spent-IsWorking src id c t (chunk ++ rest) s w)
              (w.whole ∙ ap some (sym (append_assoc t chunk rest))))
      | inr (k, f) ↦
          rw (f, write_target, w.here)
            (io_failed-Failed
              (put-IsWorking src id c t (chunk ++ rest) (t ++ take k chunk) (drop k chunk ++ rest)
                (spent s) (spent-IsWorking src id c t (chunk ++ rest) s w)
                (w.whole ∙ ap some (split_write t chunk rest k))).safe)
    ];
  }

  pub record_progress-Triple :
      (t rest : Bytes) (n : ℕ)
      → Triple (Work t rest) (record_progress id n) (λ _. Work t rest) Failed
  unfolding set_partial
  record_progress-Triple t rest n = record {
    at = λ s w. record {
      safe = record {
        same = w.safe.same;
        prefix = w.safe.prefix;
        done = w.safe.done;
        kept = w.safe.kept;
      };
      comp = w.comp;
      here = w.here;
      whole = w.whole;
      fresh = w.fresh;
    };
  }

stored-IsSafe :
    (src : Assoc Bytes) (s : Job) (o : Option Manifest)
    → IsSafe src s
    → ((id : String) → contains id (completed_in o) ≡ true → contains id s.m.completed ≡ true)
    → IsSafe src (record (spent s) { stored = o })
stored-IsSafe src s o v k = record { same = v.same; prefix = v.prefix; done = v.done; kept = k }

after_failure-kept :
    (src : Assoc Bytes) (s : Job) (k : ℕ) (id : String)
    → IsSafe src s
    → contains id (completed_in (after_failure k s.stored)) ≡ true
    → contains id s.m.completed ≡ true
unfolding contains
after_failure-kept src s zero id v h = v.kept id h
after_failure-kept src s (suc k) id v h = cc

-- Saving the manifest, whether it works, fails or leaves an unreadable file.
pub save_manifest-IsSafe :
    (src : Assoc Bytes) (s : Job) → IsSafe src s → IsSafe src (save_manifest s).1
unfolding save_manifest
save_manifest-IsSafe src s v = elim (Option-cases (next_failure s.outcomes)) [
  | inl n ↦ rw (n, save_manifest) (stored-IsSafe src s (some s.m) v (λ id h. h))
  | inr (k, f) ↦
      rw (f, save_manifest)
        (stored-IsSafe src s (after_failure k s.stored) v
          (λ id h. after_failure-kept src s k id v h))
]

save_manifest_ok : (s : Job) → save_manifest s ≡ (ok tt, (save_manifest s).1)
unfolding save_manifest
save_manifest_ok s = ground arith

-- It returns no error, so its triples follow from what holds in the state behind it.
pub save_manifest-lift :
    (P : Job → Type 0) (Q : Unit → Job → Type 0) (R : Error → Job → Type 0)
    → ((s : Job) → P s → Q tt (save_manifest s).1)
    → Triple P save_manifest Q R
save_manifest-lift P Q R f = record {
  at = λ s h. subst (Post Q R) (sym (save_manifest_ok s)) (f s h);
}

-- It changes the manifest file and the outcomes to come, and returns no error.
pub save_manifest_frame :
    (s : Job)
    → ((save_manifest s).1.m ≡ s.m)
      × ((save_manifest s).1.target ≡ s.target)
      × ((save_manifest s).1.source ≡ s.source)
      × ((save_manifest s).0 ≡ ok tt)
unfolding save_manifest
save_manifest_frame s = ground arith

stored-IsWorking :
    (src : Assoc Bytes) (id : String) (c : List String) (t rest : Bytes) (s : Job)
    (o : Option Manifest)
    → IsWorking src id c t rest s
    → IsSafe src (record (spent s) { stored = o })
    → IsWorking src id c t rest (record (spent s) { stored = o })
stored-IsWorking src id c t rest s o w v = record {
  safe = v;
  comp = w.comp;
  here = w.here;
  whole = w.whole;
  fresh = w.fresh;
}

module _ (src : Assoc Bytes) (id : String) (c : List String) where
  pub save_manifest-Triple :
      (t rest : Bytes)
      → Triple
          (IsWorking src id c t rest)
          save_manifest
          (λ _. IsWorking src id c t rest)
          (λ e s. IsSafe src s × (e ≢ out_of_fuel))
  unfolding save_manifest
  save_manifest-Triple t rest = record {
    at = λ s w. elim (Option-cases (next_failure s.outcomes)) [
      | inl n ↦
          rw (n, save_manifest)
            (stored-IsWorking src id c t rest s (some s.m) w
              (stored-IsSafe src s (some s.m) w.safe (λ k h. h)))
      | inr (k, f) ↦
          rw (f, save_manifest)
            (stored-IsWorking src id c t rest s (after_failure k s.stored) w (
              stored-IsSafe src s (after_failure k s.stored) w.safe
                (λ j h. after_failure-kept src s k j w.safe h)))
    ];
  }
