-- ===== src/Directories.antt =====
-- src/utils.rs: the removal and the making of files and directories. What the file system answers is
-- an argument.
use floki.Prelude.{
  ℕ, zero, suc, ◌+◌, ◌≤◌, ◌≡◌, refl, subst, Bool, true, false, Option, none, some, arith,
}

-- `io::ErrorKind`, where the code asks for it.
pub data ErrorKind : Type 0 where
  not_found already_exists other : ErrorKind

pub data IoResult : Type 0 where
  ok : IoResult
  err : ErrorKind → IoResult

-- `remove_file_if_exist` and `remove_dir_if_exist`, on what the removal gave.
unfoldable pub remove_if_exist : IoResult → IoResult
remove_if_exist (err not_found) = ok
remove_if_exist (err already_exists) = err already_exists
remove_if_exist (err other) = err other
remove_if_exist ok = ok

-- What an attempt meets: what `create_dir_all` gives, and whether a directory is there then.
pub record Attempt : Type 0 where
  pub made : IoResult
  pub is_dir : Bool

-- What comes of an attempt; `none` is another one.
unfoldable pub settled : Attempt → Option IoResult
settled a = elim a.made [
  | ok ↦ some ok
  | err e ↦ elim e [
    | already_exists ↦ elim a.is_dir [ true ↦ some ok | false ↦ none ]
    | not_found ↦ some (err not_found)
    | other ↦ some (err other)
  ]
]

-- `create_dir_if_not_exist`, on fuel, from the attempt `i` on; `none` is out of fuel.
unfoldable pub create_dir_if_not_exist : ℕ → (ℕ → Attempt) → ℕ → Option IoResult
unfolding settled
create_dir_if_not_exist zero attempts i = none
create_dir_if_not_exist (suc n) attempts i =
    let again = create_dir_if_not_exist n attempts (i + 1) in
    elim (settled (attempts i)) [ some r ↦ some r | none ↦ again ]

-- If something that is no directory stands there and stays, the attempts never end.
stands_in_the_way :
    (attempts : ℕ → Attempt) (n i : ℕ)
    → ((j : ℕ) → settled (attempts j) ≡ none)
    → create_dir_if_not_exist n attempts i ≡ none
unfolding create_dir_if_not_exist
stands_in_the_way attempts zero i h = refl
stands_in_the_way attempts (suc n) i h =
    rw (h i, create_dir_if_not_exist) (stands_in_the_way attempts n (i + 1) h)

-- The first attempt that settles it is the result, whatever fuel there is beyond it.
settles :
    (attempts : ℕ → Attempt) (k n i : ℕ) (r : IoResult)
    → ((j : ℕ) → suc j ≤ k → settled (attempts (i + j)) ≡ none)
    → settled (attempts (i + k)) ≡ some r
    → create_dir_if_not_exist (suc (k + n)) attempts i ≡ some r
unfolding create_dir_if_not_exist
settles attempts zero n i r before e =
    let start : i + 0 ≡ i = omega arith in
    let now : settled (attempts i) ≡ some r = subst (λ m. settled (attempts m) ≡ some r) start e in
    rw (now, create_dir_if_not_exist) refl
settles attempts (suc k) n i r before e =
    let start : i + 0 ≡ i = omega arith in
    let shift : (j : ℕ) → i + suc j ≡ (i + 1) + j = λ (j : ℕ). omega arith in
    let now : settled (attempts i) ≡ none =
      subst (λ m. settled (attempts m) ≡ none) start (before 0 (omega arith)) in
    let later =
      settles attempts k n (i + 1) r
        (λ j h.
          subst (λ m. settled (attempts m) ≡ none) (shift j) (before (suc j) (omega (arith, h))))
        (subst (λ m. settled (attempts m) ≡ some r) (shift k) e) in
    let fuel : suc (k + n) ≡ suc k + n = omega arith in
    rw (now, create_dir_if_not_exist)
      (subst (λ m. create_dir_if_not_exist m attempts (i + 1) ≡ some r) fuel later)
