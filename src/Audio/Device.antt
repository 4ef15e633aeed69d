-- ===== src/Audio/Device.antt =====
-- `run` of agent/src/audio.rs. The calls of ALSA and of the Opus encoder are a record of what they
-- answer, in the order of the code; the values that do not depend on the configuration are written
-- out where a call is given one.
use any_kvm.Common.{
  ℕ, ◌*◌, ◌%◌, ◌^◌, ◌≡◌, refl, Option, List, ◌==◌, if◌then◌else◌, All, ◌++◌, subst, sym,
  length-replicate,
}
use any_kvm.Common.Bytes.{Bytes, codes}
use any_kvm.Common.Outcome.{Outcome, ok, ◌>>=◌}
use any_kvm.Common.Errors.{context, lift}
use any_kvm.Config.{AudioConfig}
use any_kvm.Audio.{Tick, AudioEnd, frame_samples, new_pcm_buf, audio_loop}
use any_kvm.Audio.Inputs.{heard, IsRead, audio_loop-heard}

pub data Channels : Type 0 where
  mono stereo : Channels

abbrev pub Answer : Type 0 → Type 0
Answer A = Outcome Bytes A

pub record Alsa : Type 0 where
  pub open_pcm : Answer (Unit {0})
  pub hwparams_any : Answer (Unit {0})
  pub set_channels : ℕ → Answer (Unit {0})
  pub set_rate_nearest : ℕ → Answer (Unit {0})
  pub set_format_s16 : Answer (Unit {0})
  pub set_access_interleaved : Answer (Unit {0})
  pub set_buffer_size : ℕ → Answer (Unit {0})
  pub set_period_size_nearest : ℕ → Answer (Unit {0})
  pub hw_params : Answer (Unit {0})
  pub prepare : Answer (Unit {0})
  pub io_i16 : Answer (Unit {0})

-- An encoder at 48 kHz, and its bit rate as the 32-bit word that the code reads as an `i32`.
pub record Opus : Type 0 where
  pub encode : List ℕ → Option Bytes
  pub set_bitrate : ℕ → Answer (Unit {0})

-- The block that sets the parameters of the device, and `alsa.prepare()`.
unfoldable pub set_params : Alsa → AudioConfig → Answer (Unit {0})
set_params alsa cfg = do
  any ← context alsa.hwparams_any (codes "ALSA hwparams")
  channels ← context (alsa.set_channels cfg.channels) (codes "ALSA set channels")
  rate ← alsa.set_rate_nearest cfg.sample_rate
  format ← context alsa.set_format_s16 (codes "ALSA set format")
  access ← alsa.set_access_interleaved
  buffer ← alsa.set_buffer_size (frame_samples * 4)
  period ← alsa.set_period_size_nearest frame_samples
  set ← alsa.hw_params
  alsa.prepare

unfoldable pub channels_of : ℕ → Channels
channels_of channels = if channels == 1 then mono else stereo

-- Up to the loop: the encoder. `cfg.bitrate_kbps * 1000` is a product of `u32`.
unfoldable pub set_up :
    Alsa → (Channels → Answer Opus) → AudioConfig → Answer (List ℕ → Option Bytes)
unfolding set_params channels_of
set_up alsa new_opus cfg = do
  opened ←
      context alsa.open_pcm (codes "cannot open ALSA device '" ++ (codes cfg.device ++ codes "'"))
  ready ← set_params alsa cfg
  opus ← context (new_opus (channels_of cfg.channels)) (codes "failed to create Opus encoder")
  rated ← opus.set_bitrate (cfg.bitrate_kbps * 1000 % 2 ^ 32)
  io ← context alsa.io_i16 (codes "ALSA i16 io")
  ok opus.encode

-- An error is one of the set-up; those of the loop are an `AudioEnd`.
unfoldable pub run :
    Alsa → (Channels → Answer Opus) → AudioConfig → List Tick → Answer (AudioEnd × List (List ℕ))
unfolding set_up audio_loop
run alsa new_opus cfg ticks = do
  encode ← set_up alsa new_opus cfg
  lift (audio_loop cfg.channels encode (new_pcm_buf cfg) ticks)

-- Once the device and the encoder are set up, `run` does not panic, and gives the encoder the samples
-- of every round in which something was read, in order and each as it was read, up to the first that
-- cannot be encoded or whose frame cannot be sent, and ends there in that way, for a device that reads
-- whole frames of the configured channels and no more than 960 of them at once.
pub run-heard :
    (alsa : Alsa) (new_opus : Channels → Answer Opus) (cfg : AudioConfig) (ticks : List Tick)
    (encode : List ℕ → Option Bytes)
    → set_up alsa new_opus cfg ≡ ok encode
    → All (IsRead cfg.channels (frame_samples * cfg.channels)) ticks
    → run alsa new_opus cfg ticks ≡ ok (heard encode ticks)
unfolding run
run-heard alsa new_opus cfg ticks encode set whole =
    let size = sym (length-replicate {A = ℕ} (frame_samples * cfg.channels) 0) in
    let fits = subst (λ (n : ℕ). All (IsRead cfg.channels n) ticks) size whole in
    rw set (rw (audio_loop-heard cfg.channels encode (new_pcm_buf cfg) ticks fits) refl)
