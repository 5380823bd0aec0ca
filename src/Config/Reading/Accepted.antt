-- ===== src/Config/Reading/Accepted.antt =====
-- src/config.rs, `ServerConfig::read`: which settings the server starts with.
use floki.Prelude.{
  ℕ, ◌^◌, ◌*◌, ◌≤◌, ◌≡◌, Bool, true, ◌&&◌, inl, inr, Outcome-cases, Option, Option-cases, none,
  some, List, codes, Outcome, done, panic, Returns, sym, ◌>>=◌, ◌>>◌, assert, leb, arith,
}
use floki.Config.Reading.{
  ServerConfig, Toml, read_str, read_int, read_size, read_duration, read_settings, read,
}
use floki.Config.Reading.Bounds.{Holds, FitsMachine, read_settings-FitsMachine}

Returns-then :
    {A B : Type 0} (Q : A → Type 0) (P : B → Type 0) (o : Outcome A) (k : A → Outcome B)
    → Returns Q o
    → ((a : A) → Q a → Returns P (k a))
    → Returns P (o >>= k)
Returns-then Q P panic k h next = h
Returns-then Q P (done a) k h next = next a h

abbrev pub IsSegmentSize : ℕ → Type 0
IsSegmentSize n = (16 * 1024 * 1024 ≤ n) × (n ≤ 2 ^ 31)

allowed : (n : ℕ) → IsSegmentSize n → (leb (16 * 1024 * 1024) n && leb n (2 ^ 31)) ≡ true
allowed n h = ground (arith, h.0, h.1)

-- Both assertions hold.
passed :
    {A : Type 0} (n : ℕ)
    → IsSegmentSize n
    → (o : Outcome A) → Returns (λ _. Unit {0}) o
    → Returns
        (λ _. Unit {0})
        (assert (leb (16 * 1024 * 1024) n && leb n (2 ^ 31)) >> (assert true >> o))
passed n bounds o h = rw (allowed n bounds) h

module _ (to_lowercase : List ℕ → List ℕ) where
  -- Every setting is there and has its type, and a segment has a size that is allowed.
  abbrev pub AreSettings : Toml → Type 0
  AreSettings config =
      Returns (λ _. Unit {0}) (read_str to_lowercase config (codes "bind_address"))
      × Returns (λ _. Unit {0}) (read_str to_lowercase config (codes "data_directory"))
      × Returns (λ _. Unit {0}) (read_int to_lowercase config (codes "max_connections"))
      × Returns IsSegmentSize (read_size to_lowercase config (codes "segment_size"))
      × Returns (λ _. Unit {0}) (read_duration to_lowercase config (codes "maintenance_interval"))
      × Returns (λ _. Unit {0}) (read_duration to_lowercase config (codes "monitor_interval"))
      × Returns (λ _. Unit {0}) (read_duration to_lowercase config (codes "message_timeout"))
      × Returns (λ _. Unit {0}) (read_duration to_lowercase config (codes "retention_period"))
      × Returns (λ _. Unit {0}) (read_duration to_lowercase config (codes "hard_retention_period"))
      × Returns (λ _. Unit {0}) (read_size to_lowercase config (codes "retention_size"))
      × Returns (λ _. Unit {0}) (read_size to_lowercase config (codes "hard_retention_size"))

  read_settings-Returns :
      (config : Toml)
      → AreSettings config
      → Returns (λ _. Unit {0}) (read_settings to_lowercase config true)
  unfolding read_settings
  read_settings-Returns config set =
      Returns-then (λ _. Unit {0}) (λ _. Unit {0})
        (read_str to_lowercase config (codes "bind_address")) _ set.0
        (λ v0 _.
          Returns-then (λ _. Unit {0}) (λ _. Unit {0})
            (read_str to_lowercase config (codes "data_directory")) _ set.1
            (λ v1 _.
              Returns-then (λ _. Unit {0}) (λ _. Unit {0})
                (read_int to_lowercase config (codes "max_connections")) _ set.2
                (λ v2 _.
                  Returns-then IsSegmentSize (λ _. Unit {0})
                    (read_size to_lowercase config (codes "segment_size")) _ set.3
                    (λ seg bounds.
                      Returns-then (λ _. Unit {0}) (λ _. Unit {0})
                        (read_duration to_lowercase config (codes "maintenance_interval")) _ set.4
                        (λ v4 _.
                          Returns-then (λ _. Unit {0}) (λ _. Unit {0})
                            (read_duration to_lowercase config (codes "monitor_interval")) _ set.5
                            (λ v5 _.
                              Returns-then (λ _. Unit {0}) (λ _. Unit {0})
                                (read_duration to_lowercase config (codes "message_timeout")) _
                                set.6
                                (λ v6 _.
                                  Returns-then (λ _. Unit {0}) (λ _. Unit {0})
                                    (read_duration to_lowercase config (codes "retention_period")) _
                                    set.7
                                    (λ v7 _.
                                      Returns-then (λ _. Unit {0}) (λ _. Unit {0})
                                        (read_duration to_lowercase config
                                          (codes "hard_retention_period"))
                                        _ set.8
                                        (λ v8 _.
                                          Returns-then (λ _. Unit {0}) (λ _. Unit {0})
                                            (read_size to_lowercase config (codes "retention_size"))
                                            _ set.9
                                            (λ v9 _.
                                              Returns-then (λ _. Unit {0}) (λ _. Unit {0})
                                                (read_size to_lowercase config
                                                  (codes "hard_retention_size"))
                                                _ set.10
                                                (λ v10 _. (passed seg bounds (done _) tt))))))))))))

  abbrev AreFileSettings : Option Toml → Type 0
  AreFileSettings none = ⊥
  AreFileSettings (some config) = AreSettings config

  -- The file was opened and read to a text that the crate can parse, with settings that are accepted.
  abbrev pub IsAccepted : (List ℕ → Option Toml) → Option (Option (List ℕ)) → Type 0
  IsAccepted parse none = ⊥
  IsAccepted parse (some none) = ⊥
  IsAccepted parse (some (some text)) = AreFileSettings (parse text)

  -- The server stops only if one of the conditions fails.
  abbrev pub IsRead :
      (List ℕ → Option Toml) → Option (Option (List ℕ)) → Bool → Outcome ServerConfig → Type 0
  IsRead parse opened accessible panic = IsAccepted parse opened × (accessible ≡ true) → ⊥
  IsRead parse opened accessible (done c) = FitsMachine c

  read-Returns :
      (parse : List ℕ → Option Toml) (opened : Option (Option (List ℕ)))
      → IsAccepted parse opened
      → Returns (λ _. Unit {0}) (read to_lowercase parse opened true)
  unfolding read
  read-Returns parse none h = elim h [ ]
  read-Returns parse (some none) h = elim h [ ]
  read-Returns parse (some (some text)) h = elim (Option-cases (parse text)) [
    | inl p ↦ absurd (rw p at (h))
    | inr (config, p) ↦ rw (p, read) (read_settings-Returns config (rw p at (h)))
  ]

  refused :
      (parse : List ℕ → Option Toml) (opened : Option (Option (List ℕ))) (accessible : Bool)
      → read to_lowercase parse opened accessible ≡ panic
      → IsAccepted parse opened × (accessible ≡ true)
      → ⊥
  refused parse opened accessible e (set, there) =
      rw (sym there, e) at (read-Returns parse opened set)

  read-FitsMachine :
      (parse : List ℕ → Option Toml) (opened : Option (Option (List ℕ))) (accessible : Bool)
      → Holds FitsMachine (read to_lowercase parse opened accessible)
  unfolding read
  read-FitsMachine parse none accessible = tt
  read-FitsMachine parse (some none) accessible = tt
  read-FitsMachine parse (some (some text)) accessible = elim (Option-cases (parse text)) [
    | inl p ↦ rw (p, read) tt
    | inr (config, p) ↦ rw (p, read) (read_settings-FitsMachine to_lowercase config accessible)
  ]

  -- `read` panics only if the settings' file cannot be opened, read to a text or parsed, a setting
  -- is missing, has not its type or cannot be parsed, the segment size is not from 16 MB to 2 GB,
  -- or the data directory is not accessible; otherwise the segment size is in that range, the
  -- queue's periods fit 32 bits and the retention sizes and the intervals 64 bits.
  pub read_lem :
      (parse : List ℕ → Option Toml) (opened : Option (Option (List ℕ))) (accessible : Bool)
      → IsRead parse opened accessible (read to_lowercase parse opened accessible)
  read_lem parse opened accessible =
      let fits = read-FitsMachine parse opened accessible in
      elim (Outcome-cases (read to_lowercase parse opened accessible)) [
        | inl p ↦ rw p (refused parse opened accessible p)
        | inr (c, p) ↦ rw p (rw p at (fits))
      ]
