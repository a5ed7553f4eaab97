-- ===== src/Server/Zstd.antt =====
-- `zstd_wrapper::pack` and `unpack` of src/server/zstd_wrapper.h, over the library zstd.
use async_log_cloud_storage.Base.{
  ℕ, ◌-◌, ◌*◌, ◌^◌, ◌≤◌, ◌≡◌, refl, ◌≢◌, [], ◌∷◌, length, ltb, ◌==◌, if◌then◌else◌, Text, Option,
  none, some, Outcome, ok, fail, length_error, arith,
}

-- `std::string::max_size()`.
abbrev pub string_max : ℕ
string_max = 2 ^ 63 - 2

-- The results of `ZSTD_getFrameContentSize`.
pub data FrameSize : Type 0 where
  size_error size_unknown : FrameSize
  size_known : ℕ → FrameSize

-- What the code uses of zstd, with its errors as `none`.
pub record Zstd : Type 0 where
  -- `ZSTD_compress` into `ZSTD_compressBound` bytes, at level 3.
  pub compress : Text → Option Text
  pub frame_content_size : Text → FrameSize
  -- `ZSTD_decompress` into so many bytes.
  pub decompress : Text → ℕ → Option Text

-- What the code relies on: a compressed frame is not empty, records the size of its content, and is
-- decompressed to it by a buffer of that size.
pub record ZstdLaws (z : Zstd) : Type 0 where
  pub compress-ne_nil : (c p : Text) → z.compress c ≡ some p → p ≢ []
  pub frame_content_size-compress :
      (c p : Text) → z.compress c ≡ some p → z.frame_content_size p ≡ size_known (length c)
  pub decompress-compress :
      (c p : Text) → z.compress c ≡ some p → z.decompress p (length c) ≡ some c

module _ (z : Zstd) where
  unfoldable pub pack : Text → Text
  pack [] = []
  pack (c ∷ content) = elim (z.compress (c ∷ content)) [ none ↦ [] | some packed ↦ packed ]

  unfoldable pub unpack_known : Text → ℕ → Outcome Text
  unpack_known content n =
      if ltb string_max n then fail length_error else elim (z.decompress content n) [
        | none ↦ ok content
        | some unpacked ↦ if length unpacked == n then ok unpacked else ok content
      ]

  unfoldable pub unpack_unknown : Text → Outcome Text
  unpack_unknown content =
      if ltb string_max (length content * 4)
      then fail length_error
      else elim (z.decompress content (length content * 4)) [
        | none ↦ ok content
        | some unpacked ↦ ok unpacked
      ]

  unfoldable pub unpack : Text → Outcome Text
  unfolding unpack_known unpack_unknown
  unpack [] = ok []
  unpack (c ∷ content) = elim (z.frame_content_size (c ∷ content)) [
    | size_error ↦ ok (c ∷ content)
    | size_unknown ↦ unpack_unknown (c ∷ content)
    | size_known n ↦ unpack_known (c ∷ content) n
  ]

  module _ (laws : ZstdLaws z) where
    pack-eq :
        (content packed : Text)
        → pack content ≡ packed
        → packed ≢ []
        → z.compress content ≡ some packed
    unfolding pack
    pack-eq [] packed e h = absurd (ground arith)
    pack-eq (c ∷ content) packed e h = ground arith

    -- Unpacking what was packed gives it back, where zstd keeps its laws, the content fits a string, and
    -- `pack` did not report an error by the empty text.
    pub unpack-pack :
        (content packed : Text)
        → length content ≤ string_max
        → pack content ≡ packed
        → packed ≢ []
        → unpack packed ≡ ok content
    unfolding unpack
    unpack-pack content [] small e h = absurd (h refl)
    unpack-pack content (p ∷ packed) small e h =
        let did = pack-eq content (p ∷ packed) e h in
        ground (
          arith,
          laws.frame_content_size-compress content (p ∷ packed) did,
          laws.decompress-compress content (p ∷ packed) did,
        )
