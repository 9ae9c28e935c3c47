-- ===== src/Executor/Invariant.antt =====
-- The invariant of a migration, kept by what the executor writes to the target.
use mathlib.Core.List.{append_assoc}
use immich_go_server.Prelude.{
  ℕ, String, ◌≡◌, sym, ap, ◌∙◌, inl, inr, true, false, List, [], ◌++◌, Option, none, some, arith,
  Assoc, lookup, lookup-insert, contains, eq_iff, ◌==◌, eq_refl, Bool-cases, take, drop,
  take-append-drop,
}
use immich_go_server.Migration.{Manifest}
use immich_go_server.Executor.{Job, Bytes, spent, put_target}

abbrev pub completed_in : Option Manifest → List String
completed_in none = []
completed_in (some m) = m.completed

-- `src` is the source, which no step changes. Every target is the beginning of its source; every
-- completed file is a whole copy; and the manifest file claims no file that memory does not.
pub record IsSafe (src : Assoc Bytes) (s : Job) : Type 0 where
  pub same : s.source ≡ src
  pub prefix :
      (id : String) (t : Bytes)
      → lookup id s.target ≡ some t
      → (rest : Bytes) × (lookup id src ≡ some (t ++ rest))
  pub done :
      (id : String)
      → contains id s.m.completed ≡ true
      → (bytes : Bytes) × (lookup id s.target ≡ some bytes) × (lookup id src ≡ some bytes)
  pub kept :
      (id : String) → contains id (completed_in s.stored) ≡ true → contains id s.m.completed ≡ true

-- In the middle of a file: `t` of the source is in the target, `rest` is to come, and the file is not
-- among the completed ones `c`.
pub record IsWorking (src : Assoc Bytes) (id : String) (c : List String) (t rest : Bytes) (s : Job)
    : Type 0 where
  pub safe : IsSafe src s
  pub comp : s.m.completed ≡ c
  pub here : lookup id s.target ≡ some t
  pub whole : lookup id src ≡ some (t ++ rest)
  pub fresh : contains id c ≡ false

-- Writing a beginning of the source to a file that is not completed keeps the invariant.
pub put-IsSafe :
    (src : Assoc Bytes) (id : String) (t rest : Bytes) (s : Job)
    → IsSafe src s
    → contains id s.m.completed ≡ false
    → lookup id src ≡ some (t ++ rest)
    → IsSafe src (put_target id t s)
put-IsSafe src id t rest s v fresh whole = record {
  same = v.same;
  prefix = λ j u h. elim (Bool-cases (id == j)) [
    | inl e ↦ (rest, ground (arith, lookup-insert id j t s.target, eq_iff id j))
    | inr n ↦ v.prefix j u (ground (arith, lookup-insert id j t s.target))
  ];
  done = λ j c.
      let d = v.done j c in
      (d.0, ground (arith, lookup-insert id j t s.target, eq_iff id j, d.1), d.2);
  kept = v.kept;
}

-- The invariant does not read the outcomes to come.
pub spent-IsWorking :
    (src : Assoc Bytes) (id : String) (c : List String) (t rest : Bytes) (s : Job)
    → IsWorking src id c t rest s
    → IsWorking src id c t rest (spent s)
spent-IsWorking src id c t rest s w = record {
  safe = record {
    same = w.safe.same;
    prefix = w.safe.prefix;
    done = w.safe.done;
    kept = w.safe.kept;
  };
  comp = w.comp;
  here = w.here;
  whole = w.whole;
  fresh = w.fresh;
}

pub put-IsWorking :
    (src : Assoc Bytes) (id : String) (c : List String) (t rest t' rest' : Bytes) (s : Job)
    → IsWorking src id c t rest s
    → lookup id src ≡ some (t' ++ rest')
    → IsWorking src id c t' rest' (put_target id t' s)
put-IsWorking src id c t rest t' rest' s w whole = record {
  safe = put-IsSafe src id t' rest' s w.safe (ap (contains id) w.comp ∙ w.fresh) whole;
  comp = w.comp;
  here = rw (lookup-insert id id t' s.target, eq_refl);
  whole = whole;
  fresh = w.fresh;
}

pub split_write :
    (t chunk rest : Bytes) (k : ℕ)
    → t ++ (chunk ++ rest) ≡ (t ++ take k chunk) ++ (drop k chunk ++ rest)
split_write t chunk rest k =
    ap (λ z. t ++ (z ++ rest)) (sym (take-append-drop k chunk)) ∙ (simp append_assoc)
