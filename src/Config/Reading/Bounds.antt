-- ===== src/Config/Reading/Bounds.antt =====
-- src/config.rs, `ServerConfig::read`: what the settings are that the server starts with.
use floki.Prelude.{
  ◌⊎◌, ltb→lt, ℕ, ◌^◌, ◌*◌, ◌/◌, ◌≤◌, ◌<◌, ◌≡◌, refl, Bool, Bool-cases, true, false, ◌&&◌, inl, inr,
  Option, none, some, List, codes, Outcome, done, panic, ◌>>=◌, ◌>>◌, assert, u32, leb, ltb, arith,
}
use floki.Config.{
  ConfigResult, ConfigError, ok, err, scaled, size_scale, duration_scale, split_number_suffix,
  parse_size, parse_duration,
}
use floki.Config.Reading.{
  ServerConfig, Toml, expect, read_str, read_int, read_size, read_duration, read_settings,
}

-- It panics, or its result satisfies `P`.
abbrev pub Holds : {A : Type 0} → (A → Type 0) → Outcome A → Type 0
Holds P panic = Unit
Holds P (done a) = P a

Holds-then :
    {A B : Type 0} (Q : A → Type 0) (P : B → Type 0) (o : Outcome A) (k : A → Outcome B)
    → Holds Q o
    → ((a : A) → Q a → Holds P (k a))
    → Holds P (o >>= k)
Holds-then Q P panic k h next = tt
Holds-then Q P (done a) k h next = next a h

Holds-any :
    {A B : Type 0} (P : B → Type 0) (o : Outcome A) (k : A → Outcome B)
    → ((a : A) → Holds P (k a))
    → Holds P (o >>= k)
Holds-any P panic k next = tt
Holds-any P (done a) k next = next a

Holds-assert :
    {B : Type 0} (P : B → Type 0) (b : Bool) (k : Outcome B)
    → (b ≡ true → Holds P k)
    → Holds P (assert b >> k)
Holds-assert P true k next = next refl
Holds-assert P false k next = tt

-- `usize` is of 64 bits.
abbrev pub FitsMachine : ServerConfig → Type 0
FitsMachine c =
    let q = c.default_queue_config in
    (16 * 1024 * 1024 ≤ q.segment_size)
    × (q.segment_size ≤ 2 ^ 31)
    × (q.message_timeout < 2 ^ 32)
    × (q.retention_period < 2 ^ 32)
    × (q.hard_retention_period < 2 ^ 32)
    × (q.retention_size < 2 ^ 64)
    × (q.hard_retention_size < 2 ^ 64)
    × (c.maintenance_interval < 2 ^ 64)
    × (c.monitor_interval < 2 ^ 64)

between_low : (n : ℕ) → (leb (16 * 1024 * 1024) n && leb n (2 ^ 31)) ≡ true → 16 * 1024 * 1024 ≤ n
between_low n b = ground arith

between_high : (n : ℕ) → (leb (16 * 1024 * 1024) n && leb n (2 ^ 31)) ≡ true → n ≤ 2 ^ 31
between_high n b = ground arith

small : (ms : ℕ) → u32 (ms / 1000) < 2 ^ 32
small ms = omega arith

abbrev IsSmall : ConfigResult ℕ → Type 0
IsSmall (ok n) = n < 2 ^ 64
IsSmall (err _) = Unit

scaled-IsSmall : (n : ℕ) (o : Option ℕ) → IsSmall (scaled n o)
unfolding scaled
scaled-IsSmall n none = tt
scaled-IsSmall n (some scale) = elim (Bool-cases (ltb (n * scale) (2 ^ 64))) [
  | inl b ↦ rw (b, scaled) (ltb→lt (n * scale) (2 ^ 64) b)
  | inr b ↦ rw (b, scaled) tt
]

ConfigResult-cases :
    {A : Type 0} (r : ConfigResult A) → ((e : ConfigError) × (r ≡ err e)) ⊎ ((a : A) × (r ≡ ok a))
ConfigResult-cases (ok a) = inr (a, refl)
ConfigResult-cases (err e) = inl (e, refl)

expect-IsSmall : (r : ConfigResult ℕ) → IsSmall r → Holds (λ n. n < 2 ^ 64) (expect r)
expect-IsSmall (ok n) h = h
expect-IsSmall (err _) h = tt

module _ (to_lowercase : List ℕ → List ℕ) where
  parse_size-IsSmall : (text : List ℕ) → IsSmall (parse_size to_lowercase text)
  unfolding parse_size
  parse_size-IsSmall text = elim (ConfigResult-cases (split_number_suffix text)) [
    | inl (e, p) ↦ rw (p, parse_size) tt
    | inr ((n, suffix), p) ↦
        rw (p, parse_size) (scaled-IsSmall n (size_scale (to_lowercase suffix)))
  ]

  parse_duration-IsSmall : (text : List ℕ) → IsSmall (parse_duration to_lowercase text)
  unfolding parse_duration
  parse_duration-IsSmall text = elim (ConfigResult-cases (split_number_suffix text)) [
    | inl (e, p) ↦ rw (p, parse_duration) tt
    | inr ((n, suffix), p) ↦
        rw (p, parse_duration) (scaled-IsSmall n (duration_scale (to_lowercase suffix)))
  ]

  size-IsSmall :
      (config : Toml) (name : List ℕ) → Holds (λ n. n < 2 ^ 64) (read_size to_lowercase config name)
  size-IsSmall config name =
      Holds-any (λ n. n < 2 ^ 64) (read_str to_lowercase config name)
        (λ text. expect (parse_size to_lowercase text))
        (λ text. expect-IsSmall (parse_size to_lowercase text) (parse_size-IsSmall text))

  duration-IsSmall :
      (config : Toml) (name : List ℕ)
      → Holds (λ n. n < 2 ^ 64) (read_duration to_lowercase config name)
  duration-IsSmall config name =
      Holds-any (λ n. n < 2 ^ 64) (read_str to_lowercase config name)
        (λ text. expect (parse_duration to_lowercase text))
        (λ text. expect-IsSmall (parse_duration to_lowercase text) (parse_duration-IsSmall text))

  pub read_settings-FitsMachine :
      (config : Toml) (accessible : Bool)
      → Holds FitsMachine (read_settings to_lowercase config accessible)
  unfolding read_settings
  read_settings-FitsMachine config accessible =
      Holds-any FitsMachine (read_str to_lowercase config (codes "bind_address")) _ (λ a.
        Holds-any FitsMachine (read_str to_lowercase config (codes "data_directory")) _ (λ d.
          Holds-any FitsMachine (read_int to_lowercase config (codes "max_connections")) _ (λ m.
            Holds-then (λ n. n < 2 ^ 64) FitsMachine
              (read_size to_lowercase config (codes "segment_size")) _
              (size-IsSmall config (codes "segment_size"))
              (λ seg seg_h.
                Holds-then (λ n. n < 2 ^ 64) FitsMachine
                  (read_duration to_lowercase config (codes "maintenance_interval")) _
                  (duration-IsSmall config (codes "maintenance_interval"))
                  (λ mi mi_h.
                    Holds-then (λ n. n < 2 ^ 64) FitsMachine
                      (read_duration to_lowercase config (codes "monitor_interval")) _
                      (duration-IsSmall config (codes "monitor_interval"))
                      (λ mo mo_h.
                        Holds-then (λ n. n < 2 ^ 64) FitsMachine
                          (read_duration to_lowercase config (codes "message_timeout")) _
                          (duration-IsSmall config (codes "message_timeout"))
                          (λ mt mt_h.
                            Holds-then (λ n. n < 2 ^ 64) FitsMachine
                              (read_duration to_lowercase config (codes "retention_period")) _
                              (duration-IsSmall config (codes "retention_period"))
                              (λ rp rp_h.
                                Holds-then (λ n. n < 2 ^ 64) FitsMachine
                                  (read_duration to_lowercase config
                                    (codes "hard_retention_period"))
                                  _ (duration-IsSmall config (codes "hard_retention_period"))
                                  (λ hp hp_h.
                                    Holds-then (λ n. n < 2 ^ 64) FitsMachine
                                      (read_size to_lowercase config (codes "retention_size")) _
                                      (size-IsSmall config (codes "retention_size"))
                                      (λ rs rs_h.
                                        Holds-then (λ n. n < 2 ^ 64) FitsMachine
                                          (read_size to_lowercase config
                                            (codes "hard_retention_size"))
                                          _ (size-IsSmall config (codes "hard_retention_size"))
                                          (λ hs hs_h.
                                            (Holds-assert FitsMachine
                                              (leb (16 * 1024 * 1024) seg && leb seg (2 ^ 31)) _
                                              (λ b. Holds-assert FitsMachine accessible _ (λ _. (
                                                between_low seg b,
                                                between_high seg b,
                                                small mt,
                                                small rp,
                                                small hp,
                                                rs_h,
                                                hs_h,
                                                mi_h,
                                                mo_h,
                                              )))))))))))))))
