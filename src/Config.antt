-- ===== src/Config.antt =====
-- src/config.rs: the settings of a queue, and the sizes and durations in the settings' file. A text is
-- the list of its characters' codes.
pub mod Parsing
pub mod Reading
use floki.Prelude.{
  ℕ, ◌+◌, ◌-◌, ◌*◌, ◌^◌, List, [], ◌∷◌, Option, none, some, Bool, true, false, ◌&&◌, ◌||◌, same,
  leb, ltb, if◌then◌else◌,
}

pub record QueueConfig : Type 0 where
  pub name : List ℕ
  pub data_directory : List ℕ
  pub segment_size : ℕ
  pub message_timeout : ℕ
  pub retention_period : ℕ
  pub hard_retention_period : ℕ
  pub retention_size : ℕ
  pub hard_retention_size : ℕ

-- `GenericError`, for each of its causes.
pub data ConfigError : Type 0 where
  not_a_number unknown_suffix overflow : ConfigError

pub data ConfigResult (A : Type 0) : Type 0 where
  ok : A → ConfigResult A
  err : ConfigError → ConfigResult A

unfoldable pub is_digit : ℕ → Bool
is_digit c = leb 48 c && leb c 57

-- The digits at the start, and what follows them.
unfoldable pub digits_end : List ℕ → List ℕ × List ℕ
unfolding is_digit
digits_end [] = ([], [])
digits_end (c ∷ cs) =
    let (ds, rest) = digits_end cs in if is_digit c then (c ∷ ds, rest) else ([], c ∷ cs)

-- `parse::<u64>`, on digits, from a value that was read: it fails when the value passes 64 bits.
unfoldable pub parse_digits : ℕ → List ℕ → Option ℕ
parse_digits n [] = some n
parse_digits n (c ∷ cs) =
    let next = 10 * n + (c - 48) in
    let rest = parse_digits next cs in if ltb next (2 ^ 64) then rest else none

unfoldable pub split_number_suffix : List ℕ → ConfigResult (ℕ × List ℕ)
unfolding digits_end parse_digits
split_number_suffix s =
    let (digits, suffix) = digits_end s in
    let number : Option ℕ = (elim digits [ [] ↦ none | c ∷ cs ↦ parse_digits 0 (c ∷ cs) ]) in
    elim number [ none ↦ err not_a_number | some n ↦ ok (n, suffix) ]

-- `checked_mul`.
unfoldable pub scaled : ℕ → Option ℕ → ConfigResult ℕ
scaled n none = err unknown_suffix
scaled n (some scale) = if ltb (n * scale) (2 ^ 64) then ok (n * scale) else err overflow

-- The scale of a suffix in small letters: ms, s, m, h or d.
unfoldable pub duration_scale : List ℕ → Option ℕ
duration_scale suffix =
    if same suffix (109 ∷ 115 ∷ [])
    then some 1
    else if same suffix [] || same suffix (115 ∷ [])
    then some 1000
    else if same suffix (109 ∷ [])
    then some (1000 * 60)
    else if same suffix (104 ∷ [])
    then some (1000 * 60 * 60)
    else if same suffix (100 ∷ [])
    then some (1000 * 60 * 60 * 24)
    else none

-- b, k or kb, m or mb, g or gb.
unfoldable pub size_scale : List ℕ → Option ℕ
size_scale suffix =
    if same suffix [] || same suffix (98 ∷ [])
    then some 1
    else if same suffix (107 ∷ []) || same suffix (107 ∷ 98 ∷ [])
    then some 1024
    else if same suffix (109 ∷ []) || same suffix (109 ∷ 98 ∷ [])
    then some (1024 * 1024)
    else if same suffix (103 ∷ []) || same suffix (103 ∷ 98 ∷ [])
    then some (1024 * 1024 * 1024)
    else none

-- `to_lowercase` is of the standard library, and follows Unicode's tables.
module _ (to_lowercase : List ℕ → List ℕ) where
  unfoldable pub parse_duration : List ℕ → ConfigResult ℕ
  unfolding scaled duration_scale split_number_suffix
  parse_duration text = elim (split_number_suffix text) [
    | err e ↦ err e
    | ok (number, suffix) ↦ scaled number (duration_scale (to_lowercase suffix))
  ]

  unfoldable pub parse_size : List ℕ → ConfigResult ℕ
  unfolding scaled size_scale split_number_suffix
  parse_size text = elim (split_number_suffix text) [
    | err e ↦ err e
    | ok (number, suffix) ↦ scaled number (size_scale (to_lowercase suffix))
  ]
