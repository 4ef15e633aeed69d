-- ===== src/Audio/Runs.antt =====
-- A run of the audio capture, which the theorem on agent/src/audio.rs is applied to.
use any_kvm.Common.{ℕ, ◌≡◌, refl, true, false, Option, some, List, [], ◌∷◌, arith}
use any_kvm.Common.Bytes.{Bytes}
use any_kvm.Common.Outcome.{ok}
use any_kvm.Config.{AudioConfig}
use any_kvm.Audio.{Tick}
use any_kvm.Audio.Inputs.{heard}
use any_kvm.Audio.Device.{Alsa, Opus, Channels, Answer, set_params, set_up, run, run-heard}

abbrev encode : List ℕ → Option Bytes
encode input = some (1 ∷ [])

-- Two channels: a full read, a failed one, a short one, and one whose frame finds no receiver.
abbrev ticks : List Tick
ticks =
    record { read = 2; samples = 1 ∷ 2 ∷ 3 ∷ 4 ∷ []; delivered = true }
    ∷ record { read = 0; samples = []; delivered = true }
    ∷ record { read = 1; samples = 5 ∷ 6 ∷ []; delivered = true }
    ∷ record { read = 1; samples = 7 ∷ 8 ∷ []; delivered = false }
    ∷ record { read = 1; samples = 9 ∷ 9 ∷ []; delivered = true }
    ∷ []

abbrev alsa : Alsa
alsa = record {
  open_pcm = ok tt;
  hwparams_any = ok tt;
  set_channels = λ n. ok tt;
  set_rate_nearest = λ rate. ok tt;
  set_format_s16 = ok tt;
  set_access_interleaved = ok tt;
  set_buffer_size = λ n. ok tt;
  set_period_size_nearest = λ n. ok tt;
  hw_params = ok tt;
  prepare = ok tt;
  io_i16 = ok tt;
}

abbrev new_opus : Channels → Answer Opus
new_opus channels = ok (record { encode = encode; set_bitrate = λ bits. ok tt })

abbrev two_channels : AudioConfig
two_channels = record {
  device = "default";
  sample_rate = 48000;
  channels = 2;
  bitrate_kbps = 64;
  enabled = true;
}

two_channels-set_up : set_up alsa new_opus two_channels ≡ ok encode
unfolding set_up set_params
two_channels-set_up = refl

run-heard_example : run alsa new_opus two_channels ticks ≡ ok (heard encode ticks)
run-heard_example = run-heard alsa new_opus two_channels ticks encode two_channels-set_up (
  (refl, omega arith),
  ((refl, omega arith), ((refl, omega arith), ((refl, omega arith), ((refl, omega arith), tt)))),
)
