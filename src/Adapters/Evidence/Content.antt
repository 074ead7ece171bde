-- ===== src/Adapters/Evidence/Content.antt =====
-- packages/adapters/src/in-memory-evidence-lifecycle.ts: what is observed of uploaded bytes.
use nitip_cuy.Prelude.{
  ℕ, suc, zero, Bool, false, ◌&&◌, Option, none, some, List, [], ◌∷◌, ◌==◌, leb, length,
  if◌then◌else◌,
}
use nitip_cuy.Text.{Text, lit, text_eq}
use nitip_cuy.Text.Chars.{is_lower_hex, matches_exactly}
use nitip_cuy.Application.Evidence.{EvidenceMediaType, image_jpeg, image_png, image_webp}

-- `isSha256`
unfoldable pub is_sha256 : Option Text → Bool
is_sha256 none = false
is_sha256 (some value) = matches_exactly is_lower_hex 64 value

-- `content.slice(start, start + count)`
unfoldable pub slice : ℕ → ℕ → List ℕ → List ℕ
slice zero zero content = []
slice zero (suc count) [] = []
slice zero (suc count) (byte ∷ content) = byte ∷ slice zero count content
slice (suc start) count [] = []
slice (suc start) count (byte ∷ content) = slice start count content

-- The bytes at the front are the ones of the signature.
unfoldable pub starts_with : List ℕ → List ℕ → Bool
starts_with [] content = Bool.true
starts_with (byte ∷ signature) [] = false
starts_with (byte ∷ signature) (c ∷ content) = (c == byte) && starts_with signature content

abbrev pub jpeg_signature : List ℕ
jpeg_signature = 0xff ∷ 0xd8 ∷ 0xff ∷ []

abbrev pub png_signature : List ℕ
png_signature = 0x89 ∷ 0x50 ∷ 0x4e ∷ 0x47 ∷ 0x0d ∷ 0x0a ∷ 0x1a ∷ 0x0a ∷ []

-- A comparison with a byte beyond the end is false, as `undefined` equals no byte.
unfoldable pub detect_media_type : List ℕ → Option EvidenceMediaType
unfolding starts_with slice
detect_media_type content =
    if leb 3 (length content) && starts_with jpeg_signature content
    then some image_jpeg
    else if leb 8 (length content) && starts_with png_signature content
    then some image_png
    else if leb 12 (length content)
        && text_eq (slice 0 4 content) (lit "RIFF")
        && text_eq (slice 8 4 content) (lit "WEBP")
    then some image_webp
    else none
