-- ===== src/Store/Schema/Tests.antt =====
-- A table without its newest column, and a time in nanoseconds.
use immich_go_server.Prelude.{
  ◌*◌, ◌^◌, ℤ, pos, String, ◌≡◌, refl, List, [], ◌∷◌, some, arith, Assoc, lookup, insert, contains,
  IsInt64,
}
use immich_go_server.Store.Schema.{ensure_column}

abbrev old : Assoc (List String)
old = ("asset", "asset_id" ∷ []) ∷ []

abbrev upgraded : Assoc (List String)
upgraded = ("asset", "asset_id" ∷ "original_path" ∷ []) ∷ []

adds : ensure_column "asset" "original_path" old ≡ some upgraded
unfolding ensure_column lookup insert contains
adds = refl

abbrev nanos : ℤ
nanos = pos (17 * 10 ^ 17)

nanos_fits : IsInt64 nanos
nanos_fits = (omega arith, omega arith)
