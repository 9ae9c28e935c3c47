-- ===== src/Api/Ranges.antt =====
-- A range that is served lies within the blob.
use immich_go_server.Prelude.{
  ℕ, ℤ, pos, ◌≡◌, Bool-cases, inl, inr, ◌||◌, List, [], ◌∷◌, Option, none, some, arith, ltb_ℤ,
  leb_ℤ, ◌≤ℤ◌, ◌+ℤ◌, +ℤ_parts, IsInt64, sub64, sub64_exact, ◌-ℤ◌, -ℤ_parts, codes, parse_int, cut,
}
use immich_go_server.Api.{
  parse_byte_range, range_of, split_range, start_range, open_range, closed_range, suffix_range,
  behind,
}

-- The range begins in the blob, does not end before it begins, and ends before the blob does.
abbrev pub IsWithin : ℤ → ℤ × ℤ → Type 0
IsWithin size (start, end) = (pos 0 ≤ℤ start) × (start ≤ℤ end) × (end +ℤ pos 1 ≤ℤ size)

abbrev IsServed : ℤ → Option (ℤ × ℤ) → Type 0
IsServed size o = (r : ℤ × ℤ) → o ≡ some r → IsWithin size r

module _ (size : ℤ) (fits : IsInt64 size) where
  minus_exact : (n : ℤ) → pos 0 ≤ℤ n → n ≤ℤ size → sub64 size n ≡ size -ℤ n
  unfolding ◌-ℤ◌
  minus_exact n lo hi = sub64_exact size n (ground (arith, fits))

  suffix-IsServed : (o : Option ℤ) → IsServed size (suffix_range size o)
  suffix-IsServed none (start, end) h = cc
  suffix-IsServed (some n) (start, end) h = ground (
    arith,
    minus_exact n,
    minus_exact (pos 1),
    -ℤ_parts size n,
    -ℤ_parts size (pos 1),
    +ℤ_parts end (pos 1),
  )

  closed-IsServed :
      (start : ℤ) (o : Option ℤ) → pos 0 ≤ℤ start → IsServed size (closed_range size start o)
  closed-IsServed start none lo (a, b) h = cc
  closed-IsServed start (some e) lo (a, b) h = ground (arith, +ℤ_parts b (pos 1))

  open-IsServed :
      (start : ℤ) (right : List ℕ)
      → pos 0 ≤ℤ start
      → start +ℤ pos 1 ≤ℤ size
      → IsServed size (open_range size start right)
  open-IsServed start [] lo hi (a, b) h = ground (
    arith,
    minus_exact (pos 1),
    -ℤ_parts size (pos 1),
    +ℤ_parts b (pos 1),
    +ℤ_parts start (pos 1),
  )
  open-IsServed start (c ∷ cs) lo hi r h = closed-IsServed start (parse_int (c ∷ cs)) lo r h

  start-IsServed : (o : Option ℤ) (right : List ℕ) → IsServed size (start_range size o right)
  start-IsServed none right r h = cc
  start-IsServed (some start) right r h =
      elim (Bool-cases (ltb_ℤ start (pos 0) || leb_ℤ size start)) [
        | inl bad ↦ let no : none ≡ some r = rw bad at h in cc
        | inr good ↦
            open-IsServed start right (ground arith) (ground (arith, +ℤ_parts start (pos 1))) r
              (rw good at h)
      ]

  split-IsServed : (o : Option (List ℕ × List ℕ)) → IsServed size (split_range size o)
  split-IsServed none r h = cc
  split-IsServed (some ([], [])) r h = cc
  split-IsServed (some ([], c ∷ right)) r h = suffix-IsServed (parse_int (c ∷ right)) r h
  split-IsServed (some (c ∷ left, right)) r h = start-IsServed (parse_int (c ∷ left)) right r h

  range-IsServed : (o : Option (List ℕ)) → IsServed size (range_of size o)
  range-IsServed none r h = cc
  range-IsServed (some spec) r h = split-IsServed (cut 45 spec) r h

  -- Whatever the header says, a range that is parsed for a blob of `size` bytes lies within the blob.
  pub parse_byte_range-IsWithin :
      (header : List ℕ) (r : ℤ × ℤ) → parse_byte_range header size ≡ some r → IsWithin size r
  unfolding parse_byte_range
  parse_byte_range-IsWithin header r h = range-IsServed (behind (codes "bytes=") header) r h
