-- ===== src/Eval.antt =====
-- internal/eval/eval.go: how warm a directory is, and how often it may be read. `today` is the year and the
-- month of `time.Now()`.
use immich_go_server.Prelude.{
  ℕ, ◌^◌, ℤ, pos, String, ◌||◌, List, Option, none, some, if◌then◌else◌, ltb_ℤ, add64, sub64, mul64,
  codes, cut, parse_int,
}
use immich_go_server.Float64.{Float64}

-- What stands before the next slash.
abbrev first_part : Option (List ℕ × List ℕ) → List ℕ → List ℕ
first_part none all = all
first_part (some (before, _)) all = before

abbrev months_of : Option ℤ → Option ℤ → ℤ × ℤ → ℤ
months_of none month today = pos 0
months_of (some y) none today = pos 0
months_of (some y) (some m) (year, month) =
    if ltb_ℤ m (pos 1) || ltb_ℤ (pos 12) m
    then pos 0
    else (let age = sub64 (add64 (mul64 year (pos 12)) month) (add64 (mul64 y (pos 12)) m) in
        if ltb_ℤ age (pos 0) then pos 0 else age)

-- `strings.Split(dirKey, "/")`
abbrev age_of_parts : Option (List ℕ × List ℕ) → ℤ × ℤ → ℤ
age_of_parts none today = pos 0
age_of_parts (some (year, rest)) today =
    months_of (parse_int year) (parse_int (first_part (cut 47 rest) rest)) today

pub age_in_months : ℤ × ℤ → String → ℤ
age_in_months today dir_key = age_of_parts (cut 47 (codes dir_key)) today

module _ (fl : Float64) where
  abbrev within : fl.F → fl.F → fl.F → fl.F
  within low high x =
      let raised = if fl.lt x low then low else x in if fl.lt high raised then high else raised

  abbrev zero_float : fl.F
  zero_float = fl.of_int (pos 0)

  abbrev one_float : fl.F
  one_float = fl.of_int (pos 1)

  abbrev temperature_of : ℤ → fl.F
  temperature_of age =
      within zero_float one_float (fl.sub one_float (fl.div (fl.of_int age) (fl.of_int (pos 24))))

  abbrev size_factor : ℤ → fl.F
  size_factor total_bytes =
      within (fl.decimal 1 1) one_float
        (fl.div (fl.of_int total_bytes) (fl.of_int (add64 total_bytes (pos (2 ^ 30)))))

  -- The temperature and the access score.
  pub evaluate : ℤ × ℤ → String → ℤ → fl.F × fl.F
  evaluate today dir_key total_bytes =
      let t = temperature_of (age_in_months today dir_key) in
      (t, within zero_float one_float (fl.mul t (size_factor total_bytes)))
