-- ===== src/Fs/Options/Numbers.antt =====
-- Numbers in the options, and the option of the shared folder.
use prl_tools.Base.{
  ℕ, ◌+◌, ◌-◌, ◌*◌, ◌%◌, ◌^◌, ◌≤◌, ◌<◌, ◌≡◌, refl, Bool, true, false, Option, none, some, List, [],
  ◌∷◌, if◌then◌else◌, arith, length, length-append,
}
use prl_tools.Fs.Options.{
  isdigit, strtoui_loop, prlfs_strtoui, base_name, alloc_size, extend_mount_data,
}

-- The number that digits stand for after others that stand for `n`.
unfoldable pub value : ℕ → List ℕ → ℕ
value n [] = n
value n (c ∷ cs) = value (n * 10 + (c - 48)) cs

abbrev pub all_digits : List ℕ → Bool
all_digits [] = true
all_digits (c ∷ cs) = if isdigit c then all_digits cs else false

le-value : (n : ℕ) (cs : List ℕ) → n ≤ value n cs
unfolding value
le-value n [] = omega arith
le-value n (c ∷ cs) = omega (arith, le-value (n * 10 + (c - 48)) cs)

strtoui_loop-value :
    (n : ℕ) (cs : List ℕ)
    → all_digits cs ≡ true
    → value n cs < 2 ^ 32
    → strtoui_loop n cs ≡ some (value n cs)
unfolding strtoui_loop value
strtoui_loop-value n [] d small = refl
strtoui_loop-value n (c ∷ cs) d small =
    ground (arith, strtoui_loop-value (n * 10 + (c - 48)) cs, le-value (n * 10 + (c - 48)) cs)

strtoui_loop-digits : (n : ℕ) (cs : List ℕ) → all_digits cs ≡ false → strtoui_loop n cs ≡ none
unfolding strtoui_loop
strtoui_loop-digits n [] d = absurd (ground arith)
strtoui_loop-digits n (c ∷ cs) d =
    ground (arith, strtoui_loop-digits ((n * 10 + (c - 48)) % 2 ^ 32) cs)

-- A string of digits, at least one, that stands for a number below 2^32 is read as that number.
pub prlfs_strtoui-value :
    (c : ℕ) (cs : List ℕ)
    → all_digits (c ∷ cs) ≡ true
    → value 0 (c ∷ cs) < 2 ^ 32
    → prlfs_strtoui (c ∷ cs) ≡ some (value 0 (c ∷ cs))
unfolding prlfs_strtoui
prlfs_strtoui-value c cs = strtoui_loop-value 0 (c ∷ cs)

-- A string with anything else in it is refused.
pub prlfs_strtoui-digits : (cs : List ℕ) → all_digits cs ≡ false → prlfs_strtoui cs ≡ none
unfolding prlfs_strtoui
prlfs_strtoui-digits [] d = refl
prlfs_strtoui-digits (c ∷ cs) d = strtoui_loop-digits 0 (c ∷ cs) d

-- The string and its NUL fill exactly the memory that is allocated for it.
pub length-extend_mount_data :
    (options : Option (List ℕ)) (dev_name : List ℕ)
    → length (extend_mount_data options dev_name) + 1
      ≡ alloc_size options (base_name dev_name dev_name)
unfolding extend_mount_data alloc_size
length-extend_mount_data none dev_name = omega arith
length-extend_mount_data (some d) dev_name =
    omega (arith, length-append (base_name dev_name dev_name) (44 ∷ d))
