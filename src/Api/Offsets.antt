-- ===== src/Api/Offsets.antt =====
-- The ranges that a peer asks for.
use immich_go_server.Prelude.{
  ℕ, ◌<◌, ◌^◌, ℤ, pos, ◌≡◌, ◌≢◌, refl, List, [], ◌∷◌, ◌++◌, Option, none, some, arith,
  if◌then◌else◌, ltb, sub64, codes, cut-append, parse_int, parse_int-decimal, decimal,
  decimal-IsDigit, decimal-ne-nil,
}
use immich_go_server.Api.{parse_byte_range, split_range, behind}

-- The range from `offset` on, in a blob of `size` bytes.
abbrev pub range_from : ℕ → ℕ → Option (ℤ × ℤ)
range_from offset size =
    if ltb offset size then some (pos offset, sub64 (pos size) (pos 1)) else none

start_of :
    (offset size : ℕ) (cs : List ℕ)
    → parse_int cs ≡ some (pos offset)
    → cs ≢ []
    → split_range (pos size) (some (cs, [])) ≡ range_from offset size
start_of offset size [] p ne = absurd (ne refl)
start_of offset size (c ∷ cs) p ne = rw p (ground arith)

dash_behind :
    (cs : List ℕ) → behind (codes "bytes=") (codes "bytes=" ++ cs ++ 45 ∷ []) ≡ some (cs ++ 45 ∷ [])
dash_behind [] = refl
dash_behind (c ∷ cs) = refl

-- `bytes=<offset>-`
pub parse_byte_range-from :
    (offset size : ℕ)
    → offset < 2 ^ 63
    → parse_byte_range (codes "bytes=" ++ decimal offset ++ 45 ∷ []) (pos size)
      ≡ range_from offset size
unfolding parse_byte_range
parse_byte_range-from offset size fits =
    rw
      (
        dash_behind (decimal offset),
        cut-append 45 (decimal offset) [] (decimal-IsDigit offset) (omega arith),
      )
      (start_of offset size (decimal offset) (parse_int-decimal offset fits)
        (decimal-ne-nil offset))

-- `bytes=0-0`
pub parse_byte_range_first :
    (size : ℕ)
    → parse_byte_range (codes "bytes=0-0") (pos size)
      ≡ (if ltb 0 size then some (pos 0, pos 0) else none)
unfolding parse_byte_range
parse_byte_range_first size = ground arith
