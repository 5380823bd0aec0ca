-- ===== src/Config/Reading.antt =====
-- src/config.rs, `ServerConfig` and `QueueConfig`: what the settings' file gives. The `toml` crate and
-- the paths of the standard library are parameters, and what a directory holds is an argument.
pub mod Bounds
pub mod Accepted
use floki.Prelude.{
  ℕ, ◌+◌, ◌-◌, ◌*◌, ◌/◌, ◌^◌, ℤ, pos, negsuc, Bool, ◌&&◌, Option, none, some, List, [], ◌∷◌, codes,
  Outcome, done, panic, ◌>>=◌, ◌>>◌, assert, unwrap, u32, u64, leb,
}
use floki.Config.{QueueConfig, ConfigResult, ok, err, parse_duration, parse_size}

pub record ServerConfig : Type 0 where
  pub data_directory : List ℕ
  pub bind_address : List ℕ
  pub max_connections : ℕ
  pub maintenance_interval : ℕ
  pub monitor_interval : ℕ
  pub default_queue_config : QueueConfig

-- The crate's reading of a file that it can parse.
pub record Toml : Type 1 where
  pub Value : Type 0
  pub get : List ℕ → Option Value
  pub as_str : Value → Option (List ℕ)
  pub as_integer : Value → Option ℤ

-- `as usize` of an `i64`.
unfoldable pub as_usize : ℤ → ℕ
as_usize (pos n) = n
as_usize (negsuc n) = 2 ^ 64 - 1 - n

abbrev pub expect : ConfigResult ℕ → Outcome ℕ
expect (ok n) = done n
expect (err _) = panic

-- `read_config!`, for each of the types.
module _ (to_lowercase : List ℕ → List ℕ) (config : Toml) where
  abbrev pub read_str : List ℕ → Outcome (List ℕ)
  read_str name = unwrap (config.get name) >>= λ value. unwrap (config.as_str value)

  abbrev pub read_int : List ℕ → Outcome ℤ
  read_int name = unwrap (config.get name) >>= λ value. unwrap (config.as_integer value)

  abbrev pub read_size : List ℕ → Outcome ℕ
  read_size name = read_str name >>= λ text. expect (parse_size to_lowercase text)

  abbrev pub read_duration : List ℕ → Outcome ℕ
  read_duration name = read_str name >>= λ text. expect (parse_duration to_lowercase text)

  -- What `read` does with the file's settings. `accessible`: the data directory is there or can be
  -- made.
  unfoldable pub read_settings : Bool → Outcome ServerConfig
  read_settings accessible = do
    bind_address ← read_str (codes "bind_address")
    data_directory ← read_str (codes "data_directory")
    max_connections ← read_int (codes "max_connections")
    segment_size ← read_size (codes "segment_size")
    maintenance_interval ← read_duration (codes "maintenance_interval")
    monitor_interval ← read_duration (codes "monitor_interval")
    message_timeout ← read_duration (codes "message_timeout")
    retention_period ← read_duration (codes "retention_period")
    hard_retention_period ← read_duration (codes "hard_retention_period")
    retention_size ← read_size (codes "retention_size")
    hard_retention_size ← read_size (codes "hard_retention_size")
    assert (leb (16 * 1024 * 1024) segment_size && leb segment_size (2 ^ 31))
    assert accessible
    done (record {
      data_directory = data_directory;
      bind_address = bind_address;
      max_connections = as_usize max_connections;
      maintenance_interval = maintenance_interval;
      monitor_interval = monitor_interval;
      default_queue_config = record {
        name = [];
        data_directory = [];
        segment_size = segment_size;
        message_timeout = u32 (message_timeout / 1000);
        retention_period = u32 (retention_period / 1000);
        hard_retention_period = u32 (hard_retention_period / 1000);
        retention_size = retention_size;
        hard_retention_size = hard_retention_size;
      };
    })

-- `ServerConfig::read`. `opened` is what opening `floki.toml` gives, and in it what reading it to a
-- text gives; `parse` is that of the crate.
unfoldable pub read :
    (List ℕ → List ℕ)
    → (List ℕ → Option Toml)
    → Option (Option (List ℕ))
    → Bool
    → Outcome ServerConfig
unfolding read_settings
read to_lowercase parse opened accessible = do
  content ← unwrap opened
  text ← unwrap content
  config ← unwrap (parse text)
  read_settings to_lowercase config accessible

-- `join` is that of `Path`.
module _ (join : List ℕ → List ℕ → List ℕ) where
  -- `QueueConfig::new`, and `new_queue_config`.
  unfoldable pub new_queue_config : ServerConfig → List ℕ → QueueConfig
  new_queue_config server_config name = record server_config.default_queue_config {
    name = name;
    data_directory = join server_config.data_directory name;
  }

  -- Of the names that the entries of the data directory have; none if it cannot be read. An entry that
  -- cannot be read has no name.
  unfoldable pub read_entries : ServerConfig → List (Option (List ℕ)) → Option (List QueueConfig)
  unfolding new_queue_config
  read_entries server_config [] = some []
  read_entries server_config (entry ∷ entries) =
      let rest = read_entries server_config entries in
      elim entry [
        | none ↦ none
        | some name ↦ elim rest [
          | none ↦ none
          | some configs ↦ some (new_queue_config server_config name ∷ configs)
        ]
      ]

  unfoldable pub read_queue_configs :
      ServerConfig → Option (List (Option (List ℕ))) → Option (List QueueConfig)
  unfolding read_entries
  read_queue_configs server_config none = none
  read_queue_configs server_config (some entries) = read_entries server_config entries
