-- ===== src/Token/Extensions.antt =====
-- token.rs: the scan of a Token-2022 mint's extensions, and the comparison of a swap's endpoint.
use roshi.Common.{
  ℕ, ◌+◌, ◌≤◌, ◌<◌, ◌≡◌, ◌↔◌, ◌⊎◌, inl, inr, arith, Bool-cases, zero, suc, leb, ◌==◌,
}
use roshi.Common.Result.{ok}
use roshi.Common.Bytes.{Bytes, length}
use roshi.Token.{scan_extensions, u16_at, extension_metadata_pointer, extension_token_metadata}

-- A list of extensions from an offset on, in which only the metadata ones occur, that ends at the
-- data's end or at a zero marker.
pub data IsMetadataOnly (bytes : Bytes) : ℕ → Type 0 where
  at_end : (offset : ℕ) → length bytes ≤ offset → IsMetadataOnly bytes offset
  at_marker :
      (offset : ℕ)
      → offset + 4 ≤ length bytes
      → u16_at bytes offset ≡ 0
      → IsMetadataOnly bytes offset
  metadata :
      (offset : ℕ)
      → (u16_at bytes offset ≡ extension_metadata_pointer)
        ⊎ (u16_at bytes offset ≡ extension_token_metadata)
      → offset + 4 + u16_at bytes (offset + 2) ≤ length bytes
      → IsMetadataOnly bytes (offset + 4 + u16_at bytes (offset + 2))
      → IsMetadataOnly bytes offset

scan-IsMetadataOnly :
    (fuel : ℕ) (bytes : Bytes) (offset : ℕ)
    → scan_extensions fuel bytes offset ≡ ok tt
    → IsMetadataOnly bytes offset
unfolding scan_extensions
scan-IsMetadataOnly zero bytes offset h = cc
scan-IsMetadataOnly (suc fuel) bytes offset h =
    let kind = u16_at bytes offset in
    let next = offset + 4 + u16_at bytes (offset + 2) in
    elim (Bool-cases (leb (length bytes) offset)) [
      | inl over ↦ at_end offset (ground (arith, over))
      | inr more ↦ elim (Bool-cases (kind == 0)) [
        | inl marker ↦ at_marker offset (ground (arith, h, more)) (ground (arith, marker))
        | inr entry ↦
            metadata offset (ground (arith, h, more, entry)) (ground (arith, h, more, entry))
              (scan-IsMetadataOnly fuel bytes next (ground (arith, h, more, entry)))
      ]
    ]

IsMetadataOnly-scan :
    (fuel : ℕ) (bytes : Bytes) (offset : ℕ)
    → length bytes < offset + fuel
    → 0 < fuel
    → IsMetadataOnly bytes offset
    → scan_extensions fuel bytes offset ≡ ok tt
unfolding scan_extensions
IsMetadataOnly-scan zero bytes offset enough pos h = absurd (omega arith)
IsMetadataOnly-scan (suc fuel) bytes offset enough pos (at_end _ over) = ground (arith, over)
IsMetadataOnly-scan (suc fuel) bytes offset enough pos (at_marker _ header zero_kind) =
    ground (arith, header, zero_kind)
IsMetadataOnly-scan (suc fuel) bytes offset enough pos (metadata _ kind fits rest) =
    let deeper =
      IsMetadataOnly-scan fuel bytes (offset + 4 + u16_at bytes (offset + 2)) (omega arith)
        (omega arith) rest in
    ground (arith, deeper, kind, fits)

-- On data that is not empty, from an offset after the first byte and with fuel for the data's
-- length, the scan accepts exactly the extensions that are display metadata
-- only: it never runs out.
pub scan_extensions_iff :
    (bytes : Bytes) (offset : ℕ)
    → 0 < offset
    → (0 < length bytes)
    → (scan_extensions (length bytes) bytes offset ≡ ok tt) ↔ IsMetadataOnly bytes offset
scan_extensions_iff bytes offset pos some_bytes = (
  scan-IsMetadataOnly (length bytes) bytes offset,
  IsMetadataOnly-scan (length bytes) bytes offset (omega arith) some_bytes,
)
