-- ===== src/Video/Restart.antt =====
-- The message by which a capture loop asks `run_with_ctrl` of agent/src/video.rs for a restart, and
-- how it is taken apart: "video_restart:W:H:FPS".
use any_kvm.Common.{
  ℕ, ◌^◌, ◌<◌, ◌≡◌, ◌≢◌, refl, Option, none, some, List, [], ◌∷◌, ◌++◌, append-nil, append_assoc,
  arith, ◌==◌, if◌then◌else◌, All, All-append,
}
use any_kvm.Common.Bytes.{Bytes, codes}
use any_kvm.Config.{VideoConfig}
use any_kvm.Video.Decimal.{
  format_u32, parse_u32, IsDigit, format_digits-IsDigit, parse_u32-format_u32,
}

abbrev pub tag : Bytes
tag = codes "video_restart:"

-- `format!("video_restart:{}:{}:{}", …)`
unfoldable pub restart_message : VideoConfig → Bytes
restart_message cfg =
    tag ++ (format_u32 cfg.width ++ (b':' ∷ (format_u32 cfg.height ++ (b':' ∷ format_u32 cfg.fps))))

-- Whether a text begins with another, and what follows it there.
unfoldable pub strip_prefix : Bytes → Bytes → Option Bytes
strip_prefix [] s = some s
strip_prefix (p ∷ ps) [] = none
strip_prefix (p ∷ ps) (b ∷ s) = if p == b then strip_prefix ps s else none

-- What follows the first occurrence of a text, and what stands before it.
unfoldable pub after_first : Bytes → Bytes → Option Bytes
unfolding strip_prefix
after_first pat [] = strip_prefix pat []
after_first pat (b ∷ s) =
    let later = after_first pat s in
    elim (strip_prefix pat (b ∷ s)) [ some rest ↦ some rest | none ↦ later ]

unfoldable pub before_first : Bytes → Bytes → Bytes
unfolding strip_prefix
before_first pat [] = []
before_first pat (b ∷ s) =
    let later = before_first pat s in
    elim (strip_prefix pat (b ∷ s)) [ some rest ↦ [] | none ↦ b ∷ later ]

-- `s.split(c)`: the part that is being read, and those behind it.
unfoldable pub split : ℕ → Bytes → Bytes → List Bytes
split c part [] = part ∷ []
split c part (b ∷ s) =
    let same = split c (part ++ (b ∷ [])) s in
    let fresh = split c [] s in if b == c then part ∷ fresh else same

abbrev pub or_old : Option ℕ → ℕ → ℕ
or_old (some n) old = n
or_old none old = old

-- `if parts.len() >= 3 { … }`
unfoldable pub read_parts : List Bytes → VideoConfig → VideoConfig
read_parts (w ∷ h ∷ f ∷ rest) cfg = record cfg {
  width = or_old (parse_u32 w) cfg.width;
  height = or_old (parse_u32 h) cfg.height;
  fps = or_old (parse_u32 f) cfg.fps;
}
read_parts _ cfg = cfg

-- `none` where the message does not contain the tag: then it is no restart.
unfoldable pub restart_config : Bytes → VideoConfig → Option VideoConfig
unfolding after_first before_first split read_parts
restart_config msg cfg = elim (after_first tag msg) [
  | none ↦ none
  | some rest ↦ some (read_parts (split b':' [] (before_first tag rest)) cfg)
]

-- No byte of the text is a `v`, so the tag occurs nowhere in it.
abbrev NotV : ℕ → Type 0
NotV b = b ≢ b'v'

before_first-NotV : (s : Bytes) → All NotV s → before_first tag s ≡ s
unfolding before_first
before_first-NotV [] h = refl
before_first-NotV (b ∷ s) h = ground (arith, h.0, before_first-NotV s h.1)

split-digits :
    (part s rest : Bytes)
    → All IsDigit s
    → split b':' part (s ++ (b':' ∷ rest)) ≡ (part ++ s) ∷ split b':' [] rest
unfolding split
split-digits part [] rest h = rw append-nil
split-digits part (b ∷ s) rest h =
    ground (arith, split-digits (part ++ (b ∷ [])) s rest h.1, append_assoc part (b ∷ []) s)

split_last : (part s : Bytes) → All IsDigit s → split b':' part s ≡ (part ++ s) ∷ []
unfolding split
split_last part [] h = rw append-nil
split_last part (b ∷ s) h =
    ground (arith, split_last (part ++ (b ∷ [])) s h.1, append_assoc part (b ∷ []) s)

digits-NotV : (s : Bytes) → All IsDigit s → All NotV s
digits-NotV [] h = tt
digits-NotV (b ∷ s) h = (λ e. omega arith, digits-NotV s h.1)

-- Three numbers of 32 bits.
pub record IsU32Config (cfg : VideoConfig) : Type 0 where
  pub width : cfg.width < 2 ^ 32
  pub height : cfg.height < 2 ^ 32
  pub fps : cfg.fps < 2 ^ 32

-- A restart message carries the new resolution and rate: whoever takes it apart gets his own
-- configuration with exactly the sender's width, height and rate in it.
pub restart_config-restart_message :
    (new cfg : VideoConfig)
    → IsU32Config new
    → restart_config (restart_message new) cfg
      ≡ some (record cfg { width = new.width; height = new.height; fps = new.fps })
unfolding restart_config restart_message
restart_config-restart_message new cfg u =
    let w = format_u32 new.width in
    let h = format_u32 new.height in
    let f = format_u32 new.fps in
    let dw = format_digits-IsDigit 9 new.width in
    let dh = format_digits-IsDigit 9 new.height in
    let df = format_digits-IsDigit 9 new.fps in
    let rest = w ++ (b':' ∷ (h ++ (b':' ∷ f))) in
    let plain : All NotV rest = All-append NotV w (b':' ∷ (h ++ (b':' ∷ f))) (digits-NotV w dw) (
      λ e. omega arith,
      All-append NotV h (b':' ∷ f) (digits-NotV h dh) (λ e. omega arith, digits-NotV f df),
    ) in
    rw (before_first-NotV rest plain) (
      rw (split-digits [] w (h ++ (b':' ∷ f)) dw) (
        rw (split-digits [] h f dh) (
          rw (split_last [] f df) (
            rw (
              parse_u32-format_u32 new.width u.width,
              parse_u32-format_u32 new.height u.height,
              parse_u32-format_u32 new.fps u.fps,
            )))))
