-- ===== src/Video/Planes.antt =====
-- The loops that fill the planes of a YUV 4:2:0 frame in agent/src/video.rs. A loop writes into the
-- output by index; a write or a read out of range is a panic.
use native.Mathlib.Nat.{mul_comm, suc-mul, mul-le-mul_right}
use any_kvm.Common.{
  ℕ, zero, suc, ◌+◌, ◌*◌, ◌/◌, ◌≤◌, ◌<◌, ◌≡◌, arith, ltb, if◌then◌else◌, length, set, length-set,
  replicate,
}
use any_kvm.Common.Bytes.{Bytes}
use any_kvm.Common.Outcome.{Outcome, ok, panicked, ◌>>=◌, Succeeds, Succeeds-bind}
use any_kvm.Video.Colour.{luma, chroma_u, chroma_v, source_index}

-- There is no error here.
abbrev pub Io : Type 0 → Type 0
Io A = Outcome ⊥ A

-- `out[i] = v`
unfoldable pub store : Bytes → ℕ → ℕ → Io Bytes
store out i v = if ltb i (length out) then ok (set out i v) else panicked

-- A loop over indices: `left` rounds are to come, the next at `i`.
unfoldable pub for_each : (ℕ → Bytes → Io Bytes) → (step : ℕ) → ℕ → ℕ → Bytes → Io Bytes
for_each body step zero i out = ok out
for_each body step (suc left) i out = body i out >>= λ out'. for_each body step left (i + step) out'

-- `for row in 0..h { for col in 0..w { … } }`
unfoldable pub each_pixel : (ℕ → ℕ → Bytes → Io Bytes) → ℕ → ℕ → Bytes → Io Bytes
unfolding for_each
each_pixel body w h out = for_each (λ row. for_each (λ col. body row col) 1 w 0) 1 h 0 out

-- The same with `step_by(2)`: half as many rounds, rounded up.
unfoldable pub each_block : (ℕ → ℕ → Bytes → Io Bytes) → ℕ → ℕ → Bytes → Io Bytes
unfolding for_each
each_block body w h out =
    for_each (λ row. for_each (λ col. body row col) 2 ((w + 1) / 2) 0) 2 ((h + 1) / 2) 0 out

-- The colour of a source pixel, by its row and its column.
abbrev pub Source : Type 0
Source = ℕ → ℕ → Io (ℕ × ℕ × ℕ)

module _ (source : Source) (src_w src_h dst_w dst_h : ℕ) where
  unfoldable pub y_pixel : ℕ → ℕ → Bytes → Io Bytes
  unfolding store
  y_pixel dy dx out =
      source (source_index src_h dst_h dy) (source_index src_w dst_w dx) >>= λ (r, g, b).
      store out (dy * dst_w + dx) (luma r g b)

  unfoldable pub uv_pixel : ℕ → ℕ → Bytes → Io Bytes
  unfolding store
  uv_pixel dy dx out =
      source (source_index src_h dst_h dy) (source_index src_w dst_w dx) >>= λ (r, g, b).
      store out (dst_w * dst_h + (dy / 2 * (dst_w / 2) + dx / 2)) (chroma_u r g b) >>= λ out'.
      store out' (dst_w * dst_h + dst_w * dst_h / 4 + (dy / 2 * (dst_w / 2) + dx / 2))
        (chroma_v r g b)

  -- The frame of `mjpeg_to_yuv420` and of `bgra_to_yuv420`: the luma plane, then both chroma planes.
  unfoldable pub planes : Io Bytes
  unfolding each_pixel each_block y_pixel uv_pixel
  planes = each_pixel y_pixel dst_w dst_h (replicate (dst_w * dst_h * 3 / 2) 0) >>= λ filled.
      each_block uv_pixel dst_w dst_h filled

-- A store inside keeps the length.
pub store-length :
    (out : Bytes) (i v : ℕ) → i < length out → Succeeds (store out i v) (λ o. length o ≡ length out)
unfolding store
store-length out i v h = ground (arith, length-set out i v)

-- A loop keeps what each of its rounds keeps, at the indices that it reaches.
pub for_each-keeps :
    (P : Bytes → Type 0) (Q : ℕ → Type 0) (body : ℕ → Bytes → Io Bytes) (step left i bound : ℕ)
    (out : Bytes)
    → 0 < step
    → i + left * step ≤ bound
    → ((j : ℕ) → Q j → Q (j + step))
    → ((j : ℕ) (o : Bytes) → j < bound → Q j → P o → Succeeds (body j o) P)
    → Q i
    → P out
    → Succeeds (for_each body step left i out) P
unfolding for_each
for_each-keeps P Q body step zero i bound out s h on keeps q p = p
for_each-keeps P Q body step (suc left) i bound out s h on keeps q p =
    let e = suc-mul left step in
    Succeeds-bind P P (body i out) (λ out'. for_each body step left (i + step) out')
      (keeps i out (omega arith) q p)
      (λ o p'.
        for_each-keeps P Q body step left (i + step) bound o s (omega arith) on keeps (on i q) p')

-- Row by row, a pixel's index lies in the plane.
pub index-lt : (w h row col : ℕ) → row < h → col < w → row * w + col < w * h
index-lt w h row col p q = omega (arith, suc-mul row w, mul-le-mul_right w p, mul_comm w h)
