-- ===== src/Webrtc/Media.antt =====
-- `send_video` and `send_audio` of agent/src/webrtc.rs, and the part of the loop that calls them.
use any_kvm.Common.{
  ℕ, ◌+◌, Bool, false, ◌&&◌, Option, none, some, List, [], ◌∷◌, ◌==◌, if◌then◌else◌,
}
use any_kvm.Common.Bytes.{Bytes}

-- A payload format that the peer has agreed to.
pub record PayloadParams : Type 0 where
  pub pt : ℕ
  pub is_h264 : Bool
  pub packetization_mode : Option ℕ

abbrev mode_one : PayloadParams → Bool
mode_one p = elim p.packetization_mode [ some m ↦ m == 1 | none ↦ false ]

abbrev pub find : (PayloadParams → Bool) → List PayloadParams → Option ℕ
find test [] = none
find test (p ∷ ps) = if test p then some p.pt else find test ps

-- H.264 with packetization mode 1, or else any H.264.
unfoldable pub video_payload : List PayloadParams → Option ℕ
video_payload ps = elim (find (λ p. p.is_h264 && mode_one p) ps) [
  | some pt ↦ some pt
  | none ↦ find (λ p. p.is_h264) ps
]

pub record Counts : Type 0 where
  pub video_frame_count : ℕ
  pub video_write_count : ℕ
  pub video_drop_count : ℕ

-- A frame given to str0m's writer, under its payload type.
pub record Written : Type 0 where
  pub pt : ℕ
  pub frame : Bytes

-- No writer: the frame is dropped. No H.264: it is neither dropped nor written, as counted.
unfoldable pub send_video : Option (List PayloadParams) → Bytes → Counts → Counts × List Written
unfolding video_payload
send_video none frame c = (record c { video_drop_count = c.video_drop_count + 1 }, [])
send_video (some ps) frame c = elim (video_payload ps) [
  | none ↦ (c, [])
  | some pt ↦ (
    record c { video_write_count = c.video_write_count + 1 },
    record { pt = pt; frame = frame } ∷ [],
  )
]

unfoldable pub send_audio : Option (List PayloadParams) → Bytes → List Written
send_audio none frame = []
send_audio (some []) frame = []
send_audio (some (p ∷ ps)) frame = record { pt = p.pt; frame = frame } ∷ []

-- What a broadcast receiver answers; `nothing` is an empty or a closed channel.
pub data TryRecv : Type 0 where
  received : Bytes → TryRecv
  lagged : ℕ → TryRecv
  nothing : TryRecv

unfoldable pub on_video : Option (List PayloadParams) → TryRecv → Counts → Counts × List Written
unfolding send_video
on_video writer (received frame) c =
    send_video writer frame (record c { video_frame_count = c.video_frame_count + 1 })
on_video writer (lagged n) c = (c, [])
on_video writer nothing c = (c, [])

unfoldable pub on_audio : Option (List PayloadParams) → TryRecv → List Written
unfolding send_audio
on_audio writer (received frame) = send_audio writer frame
on_audio writer (lagged n) = []
on_audio writer nothing = []
