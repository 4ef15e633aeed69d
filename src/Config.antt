-- ===== src/Config.antt =====
-- agent/src/config.rs: the configuration records, and how they are read. The file system and the
-- TOML parser are arguments; a path is its text, and an absent optional field is `none`.
use Prim.Native.String.{String}
use any_kvm.Common.{ℕ, Bool, Option, none, some, List, [], ◌∷◌}
use any_kvm.Common.Outcome.{Outcome, ok, err}

pub record SignalConfig : Type 0 where
  pub url : String
  pub room_id : String

pub record VideoConfig : Type 0 where
  pub source : String
  pub device : String
  pub width : ℕ  -- u32
  pub height : ℕ  -- u32
  pub fps : ℕ  -- u32
  pub bitrate_kbps : ℕ  -- u32
  pub hw_encode : Bool

abbrev pub default_video_source : String
default_video_source = "v4l2"

pub record AudioConfig : Type 0 where
  pub device : String
  pub sample_rate : ℕ  -- u32
  pub channels : ℕ  -- u32
  pub bitrate_kbps : ℕ  -- u32
  pub enabled : Bool

pub record HidConfig : Type 0 where
  pub mode : String
  pub keyboard_device : String
  pub mouse_device : String
  pub serial_port : String
  pub serial_baud : ℕ  -- u32

pub record IceConfig : Type 0 where
  pub stun_servers : List String
  pub turn_url : Option String
  pub turn_username : Option String
  pub turn_password : Option String

pub record Config : Type 0 where
  pub signal : SignalConfig
  pub video : VideoConfig
  pub audio : AudioConfig
  pub hid : HidConfig
  pub ice : IceConfig

pub data LoadError : Type 0 where
  cannot_read parse_error : LoadError

-- `Config::load`, over the file system and the TOML parser.
unfoldable pub load :
    (read_to_string : String → Option String)
    → (from_str : String → Option Config) → String
    → Outcome LoadError Config
load read_to_string from_str path = elim (read_to_string path) [
  | none ↦ err cannot_read
  | some raw ↦ elim (from_str raw) [ none ↦ err parse_error | some cfg ↦ ok cfg ]
]

-- The path that `main` takes: the first argument behind the program's name.
unfoldable pub config_path : List String → String
config_path (program ∷ path ∷ args) = path
config_path (program ∷ []) = "config.toml"
config_path [] = "config.toml"
