-- ===== src/Video/Conversions.antt =====
-- The buffers of `mjpeg_to_yuv420` and `bgra_to_yuv420` in agent/src/video.rs.
use any_kvm.Common.{
  ℕ, ◌+◌, ◌*◌, ◌≤◌, ◌<◌, ◌≡◌, refl, sym, subst, Bool, false, Option, none, some, arith, ltb,
  if◌then◌else◌, length, Bool-cases, inl, inr,
}
use any_kvm.Common.Bytes.{Bytes}
use any_kvm.Common.Outcome.{Outcome, err, at-ok, Succeeds, Ensures}
use any_kvm.Common.Errors.{lift, lift-Ensures}
use any_kvm.Video.Planes.{index-lt, planes}
use any_kvm.Video.Frames.{IsEven, IsFrame, planes-IsFrame}
use any_kvm.Video.Sources.{
  PixelFormat, Jpeg, JpegError, bytes_per_pixel, pixel, from_jpeg, mjpeg_to_yuv420, bgra_pixel,
  bgra_to_yuv420, l8, l16, rgb24, cmyk32, decode_failed, unsupported_format, buffer_too_small,
}

bgra_pixel-ok :
    (frame : Bytes) (stride src_w src_h row col : ℕ)
    → src_w * 4 ≤ stride
    → stride * src_h ≤ length frame
    → row < src_h
    → col < src_w
    → Succeeds (bgra_pixel frame stride row col) (λ c. Unit {0})
unfolding bgra_pixel
bgra_pixel-ok frame stride src_w src_h row col wide enough r c =
    let i = index-lt stride src_h row (col * 4 + 3) r (omega arith) in
    let (b, e, _) = at-ok {E = ⊥} frame (row * stride + col * 4) (omega arith) in
    let (g, f, _) = at-ok {E = ⊥} frame (row * stride + col * 4 + 1) (omega arith) in
    let (k, d, _) = at-ok {E = ⊥} frame (row * stride + col * 4 + 2) (omega arith) in
    rw (e, f, d) tt

-- A screenshot whose rows hold four bytes for each pixel, and that has all its rows, is converted to
-- an even size with no read and no write out of range, to a frame of full length.
pub bgra_to_yuv420-IsFrame :
    (frame : Bytes) (stride src_w src_h dst_w dst_h : ℕ)
    → src_w * 4 ≤ stride
    → stride * src_h ≤ length frame
    → 0 < src_w
    → 0 < src_h
    → IsEven dst_w
    → IsEven dst_h
    → Succeeds (bgra_to_yuv420 frame stride src_w src_h dst_w dst_h) (IsFrame dst_w dst_h)
unfolding bgra_to_yuv420
bgra_to_yuv420-IsFrame frame stride src_w src_h dst_w dst_h wide enough pw ph ew eh =
    planes-IsFrame (bgra_pixel frame stride) src_w src_h dst_w dst_h
      (λ row col r c. bgra_pixel-ok frame stride src_w src_h row col wide enough r c) pw ph ew eh

rgb-ok :
    (pixels : Bytes) (i size : ℕ)
    → i < size
    → size * 3 ≤ length pixels
    → Succeeds (pixel rgb24 pixels (i * 3)) (λ c. Unit {0})
unfolding pixel
rgb-ok pixels i size h k =
    let (r, e, _) = at-ok {E = ⊥} pixels (i * 3) (omega arith) in
    let (g, f, _) = at-ok {E = ⊥} pixels (i * 3 + 1) (omega arith) in
    let (b, d, _) = at-ok {E = ⊥} pixels (i * 3 + 2) (omega arith) in rw (e, f, d) tt

grey-ok :
    (pixels : Bytes) (i size : ℕ)
    → i < size
    → size * 1 ≤ length pixels
    → Succeeds (pixel l8 pixels (i * 1)) (λ c. Unit {0})
unfolding pixel
grey-ok pixels i size h k = let (v, e, _) = at-ok {E = ⊥} pixels (i * 1) (omega arith) in rw e tt

pixel-ok :
    (format : PixelFormat) (pixels : Bytes) (bpp i size : ℕ)
    → bytes_per_pixel format ≡ some bpp
    → i < size
    → size * bpp ≤ length pixels
    → Succeeds (pixel format pixels (i * bpp)) (λ c. Unit {0})
unfolding pixel bytes_per_pixel
pixel-ok rgb24 pixels bpp i size e h k =
    let b : bpp ≡ 3 = cc in
    subst (λ (n : ℕ). Succeeds (pixel rgb24 pixels (i * n)) (λ c. Unit {0})) (sym b)
      (rgb-ok pixels i size h (subst (λ (n : ℕ). size * n ≤ length pixels) b k))
pixel-ok l8 pixels bpp i size e h k =
    let b : bpp ≡ 1 = cc in
    subst (λ (n : ℕ). Succeeds (pixel l8 pixels (i * n)) (λ c. Unit {0})) (sym b)
      (grey-ok pixels i size h (subst (λ (n : ℕ). size * n ≤ length pixels) b k))
pixel-ok cmyk32 pixels bpp i size e h k = tt
pixel-ok l16 pixels bpp i size e h k = tt

-- The branches of `from_jpeg`.
from_jpeg-Ensures :
    (j : Jpeg) (w h : ℕ) (bpp : Option ℕ) (small : ℕ → Bool)
    → ((n : ℕ)
        → bpp ≡ some n
        → small n ≡ false
        → Succeeds
            (planes
              (λ row col. pixel j.pixel_format j.pixels ((row * j.width + col) * n))
              j.width
              j.height
              w
              h)
            (IsFrame w h))
    → Ensures
        (elim bpp [
          | none ↦ err unsupported_format
          | some n ↦
              if small n
              then err buffer_too_small
              else lift (
                  planes
                    (λ row col. pixel j.pixel_format j.pixels ((row * j.width + col) * n))
                    j.width
                    j.height
                    w
                    h)
        ])
        (IsFrame w h)
from_jpeg-Ensures j w h none small k = tt
from_jpeg-Ensures j w h (some n) small k = elim (Bool-cases (small n)) [
  | inl e ↦ rw e tt
  | inr e ↦ rw e (lift-Ensures _ (IsFrame w h) _ (k n refl e))
]

if_decoded :
    (m : Option Jpeg) (f : Jpeg → Outcome JpegError Bytes) (P : Bytes → Type 0)
    → ((j : Jpeg) → m ≡ some j → Ensures (f j) P)
    → Ensures (elim m [ none ↦ err decode_failed | some j ↦ f j ]) P
if_decoded none f P h = tt
if_decoded (some j) f P h = h j refl

-- A picture that the decoder gives is never empty.
abbrev pub Decodes : (Bytes → Option Jpeg) → Type 0
Decodes decode =
    (jpeg_data : Bytes) (j : Jpeg) → decode jpeg_data ≡ some j → (0 < j.width) × (0 < j.height)

-- On every buffer of the device, `mjpeg_to_yuv420` returns an error or, for an even size, a frame of
-- full length, with no read and no write out of range, if the decoder gives no empty picture.
pub mjpeg_to_yuv420-Ensures :
    (decode : Bytes → Option Jpeg) (jpeg_data : Bytes) (w h : ℕ)
    → Decodes decode
    → IsEven w
    → IsEven h
    → Ensures (mjpeg_to_yuv420 decode jpeg_data w h) (IsFrame w h)
unfolding mjpeg_to_yuv420 from_jpeg
mjpeg_to_yuv420-Ensures decode jpeg_data w h full ew eh =
    if_decoded (decode jpeg_data) (λ j. from_jpeg j w h) (IsFrame w h)
      (λ j e.
        let (pw, ph) = full jpeg_data j e in
        from_jpeg-Ensures j w h (bytes_per_pixel j.pixel_format)
          (λ n. ltb (length j.pixels) (j.width * j.height * n))
          (λ n b s.
            planes-IsFrame (λ row col. pixel j.pixel_format j.pixels ((row * j.width + col) * n))
              j.width j.height w h
              (λ row col r c.
                pixel-ok j.pixel_format j.pixels n (row * j.width + col) (j.width * j.height) b
                  (index-lt j.width j.height row col r c) (ground arith))
              pw ph ew eh))
