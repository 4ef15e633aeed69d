-- ===== src/Video/Sources.antt =====
-- `mjpeg_to_yuv420` and `bgra_to_yuv420` of agent/src/video.rs: the same planes over two sources.
-- The JPEG decoder is an argument.
use any_kvm.Common.{ℕ, ◌+◌, ◌*◌, Option, none, some, ltb, if◌then◌else◌, length}
use any_kvm.Common.Bytes.{Bytes}
use any_kvm.Common.Outcome.{Outcome, ok, err, ◌>>=◌, at}
use any_kvm.Common.Errors.{lift}
use any_kvm.Video.Planes.{Io, planes}

pub data PixelFormat : Type 0 where
  l8 l16 rgb24 cmyk32 : PixelFormat

-- What the decoder gives: the pixels, and its `info()`.
pub record Jpeg : Type 0 where
  pub pixels : Bytes
  pub width : ℕ
  pub height : ℕ
  pub pixel_format : PixelFormat

pub data JpegError : Type 0 where
  decode_failed unsupported_format buffer_too_small : JpegError

unfoldable pub bytes_per_pixel : PixelFormat → Option ℕ
bytes_per_pixel rgb24 = some 3
bytes_per_pixel l8 = some 1
bytes_per_pixel cmyk32 = some 4
bytes_per_pixel l16 = none

-- A CMYK pixel counts as black.
unfoldable pub pixel : PixelFormat → Bytes → ℕ → Io (ℕ × ℕ × ℕ)
pixel rgb24 pixels i = do
  r ← at pixels i
  g ← at pixels (i + 1)
  b ← at pixels (i + 2)
  ok (r, g, b)
pixel l8 pixels i = do v ← at pixels i; ok (v, v, v)
pixel cmyk32 pixels i = ok (0, 0, 0)
pixel l16 pixels i = ok (0, 0, 0)

-- The conversion of a picture that was decoded.
unfoldable pub from_jpeg : Jpeg → ℕ → ℕ → Outcome JpegError Bytes
unfolding pixel planes bytes_per_pixel
from_jpeg j w h = elim (bytes_per_pixel j.pixel_format) [
  | none ↦ err unsupported_format
  | some bpp ↦
      if ltb (length j.pixels) (j.width * j.height * bpp)
      then err buffer_too_small
      else lift (
          planes (λ row col. pixel j.pixel_format j.pixels ((row * j.width + col) * bpp)) j.width
            j.height w h)
]

unfoldable pub mjpeg_to_yuv420 : (Bytes → Option Jpeg) → Bytes → ℕ → ℕ → Outcome JpegError Bytes
unfolding from_jpeg
mjpeg_to_yuv420 decode jpeg_data w h = elim (decode jpeg_data) [
  | none ↦ err decode_failed
  | some j ↦ from_jpeg j w h
]

-- A pixel of a BGRA picture whose rows are `stride` bytes apart.
unfoldable pub bgra_pixel : Bytes → ℕ → ℕ → ℕ → Io (ℕ × ℕ × ℕ)
bgra_pixel frame stride row col = do
  b ← at frame (row * stride + col * 4)
  g ← at frame (row * stride + col * 4 + 1)
  r ← at frame (row * stride + col * 4 + 2)
  ok (r, g, b)

unfoldable pub bgra_to_yuv420 : Bytes → ℕ → ℕ → ℕ → ℕ → ℕ → Io Bytes
unfolding bgra_pixel planes
bgra_to_yuv420 frame stride src_w src_h dst_w dst_h =
    planes (bgra_pixel frame stride) src_w src_h dst_w dst_h
