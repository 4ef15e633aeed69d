-- ===== src/Video/Colour.antt =====
-- The colour conversion of `mjpeg_to_yuv420` and `bgra_to_yuv420` of agent/src/video.rs, and their
-- fixed-point scaling. The intermediate values are `i32`s.
use any_kvm.Common.{ℕ, ◌+◌, ◌-◌, ◌*◌, ◌/◌, ◌^◌, ◌≤◌, min, arith, ltb, if◌then◌else◌}
use any_kvm.Common.Bytes.{IsByte}
use any_kvm.Common.Int.{pos, sub_ℕ, ◌+ℤ◌, shr_8, clamp_u8}

-- `((66 * r + 129 * g + 25 * b + 128) >> 8) + 16`, clamped.
unfoldable pub luma : ℕ → ℕ → ℕ → ℕ
luma r g b = clamp_u8 (pos ((66 * r + 129 * g + 25 * b + 128) / 256 + 16))

-- `((-38 * r - 74 * g + 112 * b + 128) >> 8) + 128`, clamped.
unfoldable pub chroma_u : ℕ → ℕ → ℕ → ℕ
chroma_u r g b = clamp_u8 (shr_8 (sub_ℕ (112 * b + 128) (38 * r + 74 * g)) +ℤ pos 128)

-- `((112 * r - 94 * g - 18 * b + 128) >> 8) + 128`, clamped.
unfoldable pub chroma_v : ℕ → ℕ → ℕ → ℕ
chroma_v r g b = clamp_u8 (shr_8 (sub_ℕ (112 * r + 128) (94 * g + 18 * b)) +ℤ pos 128)

-- Of byte colours the luma lies in 16 to 235 and the chroma in 16 to 240, the limited range of
-- BT.601: no value is clamped.
pub limited_range :
    (r g b : ℕ)
    → IsByte r
    → IsByte g
    → IsByte b
    → ((16 ≤ luma r g b) × (luma r g b ≤ 235))
      × ((16 ≤ chroma_u r g b) × (chroma_u r g b ≤ 240))
      × ((16 ≤ chroma_v r g b) × (chroma_v r g b ≤ 240))
unfolding luma chroma_u chroma_v
limited_range r g b hr hg hb =
    ((ground arith, ground arith), (ground arith, ground arith), (ground arith, ground arith))

-- `if dst > 1 { ((src - 1) << 16) / (dst - 1) } else { 0 }`, for a source that is not empty.
unfoldable pub scale : ℕ → ℕ → ℕ
scale src dst = if ltb 1 dst then (src - 1) * 2 ^ 16 / (dst - 1) else 0

-- `((d * scale) >> 16).min(src - 1)`
unfoldable pub source_index : ℕ → ℕ → ℕ → ℕ
unfolding scale
source_index src dst d = min (d * scale src dst / 2 ^ 16) (src - 1)
