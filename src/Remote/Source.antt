-- ===== src/Remote/Source.antt =====
-- What the source on another node answers, beside what a source on the own node does (Executor).
use immich_go_server.Prelude.{
  ℕ, zero, suc, ◌+◌, ◌-◌, ◌<◌, ◌^◌, ℤ, pos, String, ◌≡◌, ◌≢◌, refl, ap, inl, inr, false, List, [],
  ◌∷◌, ◌++◌, Option, none, some, arith, if◌then◌else◌, eqb, ltb, leb, length, drop, sub64,
  sub64_pos, add64_pos, take_all, length-drop, All, IsDigit, codes, parse_int, parse_int-decimal,
  decimal, decimal-IsDigit, decimal-ne-nil, format_int, Bool-cases, ok, err,
}
use immich_go_server.Host.{Host}
use immich_go_server.Api.{parse_byte_range}
use immich_go_server.Api.Offsets.{parse_byte_range-from, parse_byte_range_first}
use immich_go_server.Api.Blob.{handle_blob, size_of, slice, source_part}
use immich_go_server.Api.Blob.Stored.{IsStored, up, is_false, handle_blob_part}
use immich_go_server.Remote.{
  RemoteSource, blob_request, unexpected_status, stat_source, open_source, answered, offset_range,
  parse_content_range_total, total_behind, or_minus_one, known_total, stat_answer,
}

to_end :
    (offset : ℕ) (bytes : List ℕ)
    → offset < length bytes
    → length bytes < 2 ^ 63
    → slice (pos offset) (sub64 (size_of bytes) (pos 1)) bytes ≡ drop offset bytes
to_end offset bytes lt fits =
    let n = length bytes in
    rw
      (
        sub64_pos n 1 (omega arith) fits,
        sub64_pos (n - 1) offset (omega arith) (omega arith),
        add64_pos (n - 1 - offset) 1 (omega arith),
      )
      (take_all (n - 1 - offset + 1) (drop offset bytes)
        (omega (arith, length-drop {0} offset bytes)))

total_digits :
    (left cs : List ℕ) (n : ℤ)
    → All IsDigit cs
    → cs ≢ []
    → parse_int cs ≡ some n
    → total_behind (some (left, cs)) ≡ n
total_digits left [] n h ne p = absurd (ne refl)
total_digits left (c ∷ []) n h ne p =
    let no_star : eqb c 42 ≡ false = ground arith in rw no_star (ap or_minus_one p)
total_digits left (c ∷ d ∷ cs) n h ne p = ap or_minus_one p

zero_digits : decimal 0 ≡ 48 ∷ []
unfolding decimal
zero_digits = refl

first_total :
    (n : ℕ)
    → n < 2 ^ 63
    → parse_content_range_total
        (codes "bytes " ++ format_int (pos 0) ++ 45 ∷ format_int (pos 0) ++ 47 ∷ format_int (pos n))
      ≡ pos n
unfolding parse_content_range_total
first_total n fits = rw zero_digits (
    total_digits (48 ∷ 45 ∷ 48 ∷ []) (decimal n) (pos n) (decimal-IsDigit n) (decimal-ne-nil n)
      (parse_int-decimal n fits))

offset_range_lem : (n : ℕ) → offset_range (pos n) ≡ codes "bytes=" ++ decimal n ++ 45 ∷ []
offset_range_lem zero = rw zero_digits refl
offset_range_lem (suc n) = let after : leb (suc n + 0) 0 ≡ false = ground arith in rw after

known_total_pos : (n : ℕ) → known_total (pos n) ≡ some (pos n)
known_total_pos n = ground arith

module _ {F : Type 0} (h : Host F) (r : RemoteSource) (asset_id : String) (bytes : List ℕ)
    (stored : IsStored h r.disk_serial r.dir_key asset_id bytes) where
  reply_lem :
      (source : Option String) (c : ℕ) (cs : List ℕ)
      → handle_blob source (blob_request r asset_id (c ∷ cs)) (up h)
        ≡ (source_part bytes (parse_byte_range (c ∷ cs) (size_of bytes)), up h)
  reply_lem source c cs =
      rw (is_false r.disk_serial "" stored.disk_named, is_false r.dir_key "" stored.dir_named)
        (handle_blob_part h bytes source _ c cs refl refl stored)

  stat_lem :
      (source : Option String)
      → (stat_source (answered source) r asset_id (up h)).0
        ≡ (if ltb 0 (length bytes) then some (size_of bytes) else none)
  unfolding stat_source stat_answer
  stat_lem source = elim (Bool-cases (ltb 0 (length bytes))) [
    | inl t ↦ rw (
      reply_lem source,
      parse_byte_range_first (length bytes),
      t,
      first_total (length bytes) stored.fits,
      known_total_pos,
    )
    | inr f ↦ rw (reply_lem source, parse_byte_range_first (length bytes), f)
  ]

  open_lem :
      (source : Option String) (offset : ℕ)
      → offset < 2 ^ 63
      → (open_source (answered source) r asset_id (pos offset) (up h)).0 ≡ (
          if ltb offset (length bytes) then ok (drop offset bytes) else err (unexpected_status 416))
  unfolding open_source
  open_lem source offset fits = elim (Bool-cases (ltb offset (length bytes))) [
    | inl t ↦ rw (
      offset_range_lem offset,
      reply_lem source,
      parse_byte_range-from offset (length bytes) fits,
      t,
      to_end offset bytes (ground arith) stored.fits,
    )
    | inr f ↦ rw (
      offset_range_lem offset,
      reply_lem source,
      parse_byte_range-from offset (length bytes) fits,
      f,
    )
  ]

  -- The source on another node, while the calls are answered, and the disk and the file are there: the size
  -- is known if the blob has a byte, and the bytes from an offset on are sent if there is at least one.
  -- There is no answer for an empty blob, or for an offset at the end of a blob.
  pub remote_source_lem :
      (source : Option String) (offset : ℕ)
      → offset < 2 ^ 63
      → ((stat_source (answered source) r asset_id (up h)).0
          ≡ (if ltb 0 (length bytes) then some (size_of bytes) else none))
        × ((open_source (answered source) r asset_id (pos offset) (up h)).0 ≡ (
            if ltb offset (length bytes)
            then ok (drop offset bytes)
            else err (unexpected_status 416)))
  remote_source_lem source offset fits = (stat_lem source, open_lem source offset fits)
