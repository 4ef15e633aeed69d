-- ===== src/Video/Frames.antt =====
-- The pixel conversions of agent/src/video.rs on frames of even size.
use native.Mathlib.Nat.{mul_comm, mul_assoc}
use any_kvm.Common.{ℕ, ◌+◌, ◌*◌, ◌/◌, ◌%◌, ◌<◌, ◌≡◌, ap₂, ◌∙◌, arith, length, length-replicate}
use any_kvm.Common.Bytes.{Bytes}
use any_kvm.Common.Outcome.{◌>>=◌, Succeeds, Succeeds-bind, Succeeds-mono}
use any_kvm.Video.Colour.{luma, chroma_u, chroma_v, source_index}
use any_kvm.Video.Planes.{
  Io, store, store-length, for_each, for_each-keeps, index-lt, each_pixel, each_block, Source,
  y_pixel, uv_pixel, planes,
}

-- A width or a height that 4:2:0 can halve.
abbrev pub IsEven : ℕ → Type 0
IsEven n = n % 2 ≡ 0

pub each_pixel-keeps :
    (P : Bytes → Type 0) (body : ℕ → ℕ → Bytes → Io Bytes) (w h : ℕ) (out : Bytes)
    → ((row col : ℕ) (o : Bytes) → row < h → col < w → P o → Succeeds (body row col o) P)
    → P out
    → Succeeds (each_pixel body w h out) P
unfolding each_pixel
each_pixel-keeps P body w h out keeps p =
    let Any : ℕ → Type 0 = λ j. Unit {0} in
    for_each-keeps P Any (λ row. for_each (λ col. body row col) 1 w 0) 1 h 0 h out (omega arith)
      (omega arith) (λ j q. tt)
      (λ row o r _ q.
        for_each-keeps P Any (λ col. body row col) 1 w 0 w o (omega arith) (omega arith) (λ j q. tt)
          (λ col o' c _ q'. keeps row col o' r c q') tt q)
      tt p

pub each_block-keeps :
    (P : Bytes → Type 0) (body : ℕ → ℕ → Bytes → Io Bytes) (w h : ℕ) (out : Bytes)
    → IsEven w
    → IsEven h
    → ((row col : ℕ) (o : Bytes) → row < h → col + 1 < w → P o → Succeeds (body row col o) P)
    → P out
    → Succeeds (each_block body w h out) P
unfolding each_block
each_block-keeps P body w h out ew eh keeps p =
    for_each-keeps P IsEven (λ row. for_each (λ col. body row col) 2 ((w + 1) / 2) 0) 2
      ((h + 1) / 2) 0 h out (omega arith) (omega arith) (λ j q. omega arith)
      (λ row o r _ q.
        for_each-keeps P IsEven (λ col. body row col) 2 ((w + 1) / 2) 0 w o (omega arith)
          (omega arith) (λ j q. omega arith)
          (λ col o' c even q'. keeps row col o' r (omega arith) q') (omega arith) q)
      (omega arith) p

four : (a b : ℕ) → a * 2 * (b * 2) ≡ a * b * 4
four a b =
    omega (arith, mul_assoc a 2 (b * 2), mul_comm 2 (b * 2), mul_assoc a (b * 2) 2, mul_assoc a b 2)

-- A plane of an even size has four pixels for each block.
quarter : (w h : ℕ) → IsEven w → IsEven h → w * h ≡ w / 2 * (h / 2) * 4
quarter w h ew eh =
    let e : w ≡ w / 2 * 2 = omega arith in
    let f : h ≡ h / 2 * 2 = omega arith in ap₂ ◌*◌ e f ∙ four (w / 2) (h / 2)

-- The frame has one and a half bytes for each pixel.
abbrev pub IsFrame : ℕ → ℕ → Bytes → Type 0
IsFrame w h out = length out ≡ w * h * 3 / 2

-- The two stores of a block lie inside the frame.
pub block-IsFrame :
    (w h row col u v : ℕ) (out : Bytes)
    → IsEven w
    → IsEven h
    → row < h
    → col < w
    → IsFrame w h out
    → Succeeds
        (store out (w * h + (row / 2 * (w / 2) + col / 2)) u >>= λ out'.
          store out' (w * h + w * h / 4 + (row / 2 * (w / 2) + col / 2)) v)
        (IsFrame w h)
block-IsFrame w h row col u v out ew eh r c p =
    let q = quarter w h ew eh in
    let i = index-lt (w / 2) (h / 2) (row / 2) (col / 2) (omega arith) (omega arith) in
    Succeeds-bind (IsFrame w h) (IsFrame w h) (store out (w * h + (row / 2 * (w / 2) + col / 2)) u)
      _ (Succeeds-mono _ (IsFrame w h) _ (λ o e. e ∙ p) (store-length out _ u (omega arith)))
      (λ out' p'.
        Succeeds-mono _ (IsFrame w h) _ (λ o e. e ∙ p')
          (store-length out' (w * h + w * h / 4 + (row / 2 * (w / 2) + col / 2)) v (omega arith)))

pub pixel-IsFrame :
    (w h row col v : ℕ) (out : Bytes)
    → row < h
    → col < w
    → IsFrame w h out
    → Succeeds (store out (row * w + col) v) (IsFrame w h)
pixel-IsFrame w h row col v out r c p =
    Succeeds-mono _ (IsFrame w h) _ (λ o e. e ∙ p)
      (store-length out (row * w + col) v (omega (arith, index-lt w h row col r c)))

source_index-lt : (src dst d : ℕ) → 0 < src → source_index src dst d < src
unfolding source_index
source_index-lt src dst d h = omega arith

-- The conversion of a source of any size that is not empty to a frame of even size: no read and no
-- write is out of range, and the frame has its full length.
pub planes-IsFrame :
    (source : Source) (src_w src_h dst_w dst_h : ℕ)
    → ((row col : ℕ) → row < src_h → col < src_w → Succeeds (source row col) (λ c. Unit {0}))
    → 0 < src_w
    → 0 < src_h
    → IsEven dst_w
    → IsEven dst_h
    → Succeeds (planes source src_w src_h dst_w dst_h) (IsFrame dst_w dst_h)
unfolding planes y_pixel uv_pixel
planes-IsFrame source src_w src_h dst_w dst_h reads pw ph ew eh =
    let read = λ (row col : ℕ).
      reads (source_index src_h dst_h row) (source_index src_w dst_w col)
        (source_index-lt src_h dst_h row ph) (source_index-lt src_w dst_w col pw) in
    Succeeds-bind (IsFrame dst_w dst_h) (IsFrame dst_w dst_h) _ _
      (each_pixel-keeps (IsFrame dst_w dst_h) (y_pixel source src_w src_h dst_w dst_h) dst_w dst_h _
        (λ row col o r c p.
          Succeeds-bind (λ _. Unit {0}) (IsFrame dst_w dst_h) _ _ (read row col)
            (λ rgb _. pixel-IsFrame dst_w dst_h row col (luma rgb.0 rgb.1 rgb.2) o r c p))
        (length-replicate {A = ℕ} (dst_w * dst_h * 3 / 2) 0))
      (λ filled p.
        each_block-keeps (IsFrame dst_w dst_h) (uv_pixel source src_w src_h dst_w dst_h) dst_w dst_h
          filled ew eh
          (λ row col o r c q.
            Succeeds-bind (λ _. Unit {0}) (IsFrame dst_w dst_h) _ _ (read row col)
              (λ rgb _.
                block-IsFrame dst_w dst_h row col (chroma_u rgb.0 rgb.1 rgb.2)
                  (chroma_v rgb.0 rgb.1 rgb.2) o ew eh r (omega arith) q))
          p)
