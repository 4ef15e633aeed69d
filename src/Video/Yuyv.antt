-- ===== src/Video/Yuyv.antt =====
-- `yuyv_to_yuv420` of agent/src/video.rs.
use any_kvm.Common.{
  ℕ, ◌+◌, ◌*◌, ◌/◌, ◌≤◌, ◌<◌, ◌≡◌, true, arith, ltb, if◌then◌else◌, length, replicate,
  length-replicate,
}
use any_kvm.Common.Bytes.{Bytes}
use any_kvm.Common.Outcome.{panicked, ◌>>=◌, at, at-ok, Succeeds, Succeeds-bind}
use any_kvm.Video.Planes.{Io, store, index-lt, each_pixel, each_block}
use any_kvm.Video.Frames.{
  IsEven, IsFrame, each_pixel-keeps, each_block-keeps, pixel-IsFrame, block-IsFrame,
}

module _ (src : Bytes) (w h : ℕ) where
  -- `y_plane[row * w + col] = src[(row * w + col) * 2]`, where the plane ends at `w * h`.
  unfoldable pub luma_byte : ℕ → ℕ → Bytes → Io Bytes
  unfolding store
  luma_byte row col out = do
    v ← at src ((row * w + col) * 2)
    if ltb (row * w + col) (w * h) then store out (row * w + col) v else panicked

  unfoldable pub chroma_bytes : ℕ → ℕ → Bytes → Io Bytes
  unfolding store
  chroma_bytes row col out = do
    u ← at src ((row * w + col) * 2 + 1)
    v ← at src ((row * w + col) * 2 + 3)
    let uv_idx = row / 2 * (w / 2) + col / 2
    out' ← store out (w * h + uv_idx) u
    store out' (w * h + w * h / 4 + uv_idx) v

  unfoldable pub yuyv_to_yuv420 : Io Bytes
  unfolding each_pixel each_block luma_byte chroma_bytes
  yuyv_to_yuv420 = do
    filled ← each_pixel luma_byte w h (replicate (w * h * 3 / 2) 0)
    each_block chroma_bytes w h filled

  luma_byte-IsFrame :
      (row col : ℕ) (out : Bytes)
      → w * h * 2 ≤ length src
      → row < h
      → col < w
      → IsFrame w h out
      → Succeeds (luma_byte row col out) (IsFrame w h)
  unfolding luma_byte
  luma_byte-IsFrame row col out enough r c p =
      let i = index-lt w h row col r c in
      let (v, e, _) = at-ok {E = ⊥} src ((row * w + col) * 2) (omega arith) in
      let inside : ltb (row * w + col) (w * h) ≡ true = ground arith in
      rw (e, inside) (pixel-IsFrame w h row col v out r c p)

  chroma_bytes-IsFrame :
      (row col : ℕ) (out : Bytes)
      → w * h * 2 ≤ length src
      → IsEven w
      → IsEven h
      → row < h
      → col + 1 < w
      → IsFrame w h out
      → Succeeds (chroma_bytes row col out) (IsFrame w h)
  unfolding chroma_bytes
  chroma_bytes-IsFrame row col out enough ew eh r c p =
      let i = index-lt w h row (col + 1) r c in
      let (u, e, _) = at-ok {E = ⊥} src ((row * w + col) * 2 + 1) (omega arith) in
      let (v, f, _) = at-ok {E = ⊥} src ((row * w + col) * 2 + 3) (omega arith) in
      rw (e, f) (block-IsFrame w h row col u v out ew eh r (omega arith) p)

  -- A YUYV buffer of an even size, with two bytes for each pixel, is converted with no read and no
  -- write out of range, to a frame of full length.
  pub yuyv_to_yuv420-IsFrame :
      w * h * 2 ≤ length src → IsEven w → IsEven h → Succeeds yuyv_to_yuv420 (IsFrame w h)
  unfolding yuyv_to_yuv420
  yuyv_to_yuv420-IsFrame enough ew eh =
      Succeeds-bind (IsFrame w h) (IsFrame w h) _ _
        (each_pixel-keeps (IsFrame w h) luma_byte w h _
          (λ row col o r c p. luma_byte-IsFrame row col o enough r c p)
          (length-replicate {A = ℕ} (w * h * 3 / 2) 0))
        (λ filled p.
          each_block-keeps (IsFrame w h) chroma_bytes w h filled ew eh
            (λ row col o r c q. chroma_bytes-IsFrame row col o enough ew eh r c q) p)
