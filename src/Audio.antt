-- ===== src/Audio.antt =====
-- agent/src/audio.rs: audio capture from its loop on. The device and the Opus encoder are arguments;
-- a sample is a number.
pub mod Inputs
pub mod Device
mod Runs
use any_kvm.Common.{
  ℕ, ◌-◌, ◌*◌, ◌+◌, ◌≤◌, ◌≡◌, refl, sym, subst, Bool, true, false, Option, none, some, List, [],
  ◌∷◌, ◌++◌, arith, ltb, ◌==◌, if◌then◌else◌, length, take, drop, replicate, All, ap, ◌∙◌,
}
use any_kvm.Common.Bytes.{Bytes}
use any_kvm.Common.Outcome.{
  Outcome, ok, err, panicked, out_of_fuel, ◌>>=◌, slice, slice-ok, Succeeds,
}
use any_kvm.Config.{AudioConfig}
use any_kvm.Turn.Client.{fill}

-- 20 ms at 48 kHz.
abbrev pub frame_samples : ℕ
frame_samples = 960

-- `vec![0i16; FRAME_SAMPLES * cfg.channels as usize]`
abbrev pub new_pcm_buf : AudioConfig → List ℕ
new_pcm_buf cfg = replicate (frame_samples * cfg.channels) 0

-- What a round of the loop meets: how many frames `readi` read, 0 after an error, the samples that
-- it put into the front of the buffer, and whether the frame can be sent.
pub record Tick : Type 0 where
  pub read : ℕ
  pub samples : List ℕ
  pub delivered : Bool

pub data AudioEnd : Type 0 where
  finished encode_error running : AudioEnd

-- `pcm_buf[filled..].fill(0)`, if that is not all of it.
unfoldable pub clear_rest : ℕ → List ℕ → List ℕ
clear_rest filled pcm_buf =
    if ltb filled (length pcm_buf)
    then take filled pcm_buf ++ replicate (length pcm_buf - filled) 0
    else pcm_buf

module _ (channels : ℕ) (encode : List ℕ → Option Bytes) where
  -- The end of the loop, and what was given to the encoder.
  unfoldable pub audio_loop : List ℕ → List Tick → Outcome ⊥ (AudioEnd × List (List ℕ))
  unfolding clear_rest
  audio_loop pcm_buf [] = ok (running, [])
  audio_loop pcm_buf (t ∷ ticks) =
      let filled = t.read * channels in
      let kept = fill pcm_buf t.samples in
      let cleared = clear_rest filled kept in
      let skipped = audio_loop kept ticks in
      let encoded = audio_loop cleared ticks in
      if t.read == 0
      then skipped
      else (slice cleared 0 filled >>= λ input. elim (encode input) [
        | none ↦ ok (encode_error, input ∷ [])
        | some frame ↦
            if t.delivered
            then (encoded >>= λ more. ok (more.0, input ∷ more.1))
            else ok (finished, input ∷ [])
      ])
