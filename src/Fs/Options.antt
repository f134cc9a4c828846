-- ===== src/Fs/Options.antt =====
-- The mount options, in kmods-src/prl_fs/SharedFolders/Guest/Linux/prl_fs/super.c. A string is the list
-- of its bytes up to the NUL; `unsigned` has 32 bits.
pub mod Numbers
use prl_tools.Base.{
  ℕ, zero, suc, ◌+◌, ◌-◌, ◌*◌, ◌%◌, ◌^◌, Bool, true, false, Option, none, some, List, [], ◌∷◌, ◌++◌,
  ◌&&◌, ◌==◌, ltb, leb, if◌then◌else◌, ℤ, pos, neg, length, take, ◌==ℤ◌,
}
use prl_tools.Base.Errno.{einval}

abbrev pub isdigit : ℕ → Bool
isdigit c = leb 48 c && leb c 57

-- The loop of `prlfs_strtoui` from `ui` on: an error, or the number.
pub strtoui_loop : ℕ → List ℕ → Option ℕ
strtoui_loop ui [] = some ui
strtoui_loop ui (c ∷ cp) =
    let next = (ui * 10 + (c - 48)) % 2 ^ 32 in
    let rest = strtoui_loop next cp in
    if isdigit c then if ltb next ui then none else rest else none

-- `none` stands for -EINVAL, where `*result` stays as it was.
pub prlfs_strtoui : List ℕ → Option ℕ
prlfs_strtoui [] = none
prlfs_strtoui (c ∷ cp) = strtoui_loop 0 (c ∷ cp)

abbrev pub locale_name_len : ℕ
locale_name_len = 40

abbrev pub name_max : ℕ
name_max = 255

-- The options in `struct prlfs_sb_info`.
pub record SbInfo : Type 0 where
  pub ttl : ℕ
  pub uid : ℕ
  pub gid : ℕ
  pub share : ℕ
  pub plain : ℕ
  pub host_inodes : ℕ
  pub nls : List ℕ
  pub name : List ℕ

-- `strcmp`
pub same : List ℕ → List ℕ → Bool
same [] [] = true
same [] (y ∷ ys) = false
same (x ∷ xs) [] = false
same (x ∷ xs) (y ∷ ys) = if x == y then same xs ys else false

abbrev comma : ℕ
comma = 44

abbrev equals : ℕ
equals = 61

-- `strsep` at commas, for the whole string: the tokens in order.
pub tokens : List ℕ → List (List ℕ)
tokens [] = [] ∷ []
tokens (c ∷ cs) = elim (tokens cs) [
  | [] ↦ [] ∷ []
  | t ∷ ts ↦ if c == comma then [] ∷ t ∷ ts else (c ∷ t) ∷ ts
]

-- The option up to its first '=', and the value, if there is one that is not empty.
pub option_name : List ℕ → List ℕ
option_name [] = []
option_name (c ∷ cs) = if c == equals then [] else c ∷ option_name cs

pub option_value : List ℕ → Option (List ℕ)
option_value [] = none
option_value (c ∷ cs) =
    if c == equals
    then elim cs as (λ _. Option (List ℕ)) [ [] ↦ none | v ∷ vs ↦ some (v ∷ vs) ]
    else option_value cs

-- The values of `ret` and of `*result`, which keeps what it was on an error.
abbrev with_number : Option ℕ → ℕ → (ℕ → SbInfo) → ℤ × SbInfo
with_number none old set = (neg einval, set old)
with_number (some n) old set = (pos 0, set n)

-- The options that need a value.
valued_option : List ℕ → List ℕ → SbInfo → ℤ × SbInfo
valued_option opt val sbi =
    if same opt (b't' ∷ b't' ∷ b'l' ∷ [])
    then with_number (prlfs_strtoui val) sbi.ttl (λ n. record sbi { ttl = n })
    else if same opt (b'u' ∷ b'i' ∷ b'd' ∷ [])
    then with_number (prlfs_strtoui val) (2 ^ 32 - 1) (λ n. record sbi { uid = n })
    else if same opt (b'g' ∷ b'i' ∷ b'd' ∷ [])
    then with_number (prlfs_strtoui val) (2 ^ 32 - 1) (λ n. record sbi { gid = n })
    else if same opt (b'n' ∷ b'l' ∷ b's' ∷ [])
    then (pos 0, record sbi { nls = take (locale_name_len - 1) val })
    else if same opt (b's' ∷ b'f' ∷ [])
    then (pos 0, record sbi { name = take name_max val })
    else (neg einval, sbi)

-- Those that do not, whether or not they have one.
plain_option : List ℕ → SbInfo → Option SbInfo
plain_option opt sbi =
    if same opt (b's' ∷ b'h' ∷ b'a' ∷ b'r' ∷ b'e' ∷ [])
    then some (record sbi { share = 1 })
    else if same opt (b'p' ∷ b'l' ∷ b'a' ∷ b'i' ∷ b'n' ∷ [])
    then some (record sbi { plain = 1 })
    else if same opt
        (b'h' ∷ b'o' ∷ b's' ∷ b't' ∷ b'_' ∷ b'i' ∷ b'n' ∷ b'o' ∷ b'd' ∷ b'e' ∷ b's' ∷ [])
    then some (record sbi { host_inodes = 1 })
    else none

-- The body of the loop for a token that is not empty.
parse_option : List ℕ → SbInfo → ℤ × SbInfo
parse_option token sbi = elim (plain_option (option_name token) sbi) [
  | some t ↦ (pos 0, t)
  | none ↦ elim (option_value token) as (λ _. ℤ × SbInfo) [
    | none ↦ (neg einval, sbi)
    | some val ↦ valued_option (option_name token) val sbi
  ]
]

pub parse_loop : List (List ℕ) → SbInfo → ℤ × SbInfo
unfolding parse_option plain_option valued_option
parse_loop [] sbi = (pos 0, sbi)
parse_loop ([] ∷ ts) sbi = parse_loop ts sbi
parse_loop ((c ∷ cs) ∷ ts) sbi =
    let (ret, sbi') = parse_option (c ∷ cs) sbi in
    let rest = parse_loop ts sbi' in if ret ==ℤ pos 0 then rest else (ret, sbi')

-- `hz`, and the caller's user and group, are the kernel's.
pub prlfs_parse_mount_options : ℕ → ℕ → ℕ → Option (List ℕ) → SbInfo → ℤ × SbInfo
prlfs_parse_mount_options hz uid gid options sbi =
    let sbi' = record sbi { uid = uid; gid = gid; ttl = hz } in
    elim options [ none ↦ (pos 0, sbi') | some s ↦ parse_loop (tokens s) sbi' ]

-- After the last '/', by `strrchr`.
pub base_name : List ℕ → List ℕ → List ℕ
base_name [] best = best
base_name (c ∷ cs) best = base_name cs (if c == 47 then cs else best)

-- The length that `extend_mount_data` allocates.
pub alloc_size : Option (List ℕ) → List ℕ → ℕ
alloc_size none dev = 4 + length dev
alloc_size (some d) dev = 4 + length dev + (1 + length d)

-- The string that it writes there, without its NUL.
pub extend_mount_data : Option (List ℕ) → List ℕ → List ℕ
extend_mount_data none dev_name = b's' ∷ b'f' ∷ b'=' ∷ base_name dev_name dev_name
extend_mount_data (some d) dev_name = b's' ∷ b'f' ∷ b'=' ∷ base_name dev_name dev_name ++ comma ∷ d
