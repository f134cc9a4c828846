-- ===== src/Fs/Path.antt =====
-- prlfs_get_path in kmods-src/prl_fs/SharedFolders/Guest/Linux/prl_fs/inode.c: the path of a directory
-- entry for the host. It is written from the end of a buffer towards its start, so that the text and the
-- NUL after it stand in the last bytes of the buffer; `start` is where the text begins.
pub mod Room
mod Tests
use prl_tools.Base.{
  ℕ, zero, suc, ◌+◌, ◌-◌, Bool, true, false, List, [], ◌∷◌, ◌++◌, Option, none, some, length, ltb,
  if◌then◌else◌, ◌||◌, ◌==◌,
}

-- '/'
abbrev pub slash : List ℕ
slash = 47 ∷ []

-- The text, its place, and the variable `len`, which prepend takes for the room before the text.
pub record PathBuf : Type 0 where
  pub text : List ℕ
  pub start : ℕ
  pub len : ℕ

-- A path; -ENAMETOOLONG; or a write outside of the buffer.
pub data PathResult : Type 0 where
  path : PathBuf → PathResult
  too_long : PathResult
  outside : PathResult

unfoldable pub prepend : List ℕ → PathBuf → PathResult
prepend str b =
    if ltb b.len (length str)
    then too_long
    else if ltb b.start (length str)
    then outside
    else path
        (record { text = str ++ b.text; start = b.start - length str; len = b.len - length str })

-- The two calls of prepend: the name of the shared folder, and a slash.
abbrev pub then_slash : PathResult → PathResult
then_slash (path b) = prepend slash b
then_slash too_long = too_long
then_slash outside = outside

abbrev pub prepend_folder : List ℕ → PathBuf → PathResult
prepend_folder name b = then_slash (prepend name b)

-- From Linux 2.6.38 on. dentry_path_raw is a parameter: it brings the text that it has put at the end of
-- the buffer, or an error, which is not looked at: the pointer is then none to the buffer.
unfoldable pub path_from : List ℕ → ℕ → Option (List ℕ) → PathResult
path_from name plen none = if ltb plen (length name) then too_long else outside
path_from name plen (some t) =
    prepend_folder name (record { text = t; start = plen - suc (length t); len = plen })

abbrev pub prlfs_get_path : (ℕ → Option (List ℕ)) → List ℕ → ℕ → PathResult
prlfs_get_path dentry_path_raw name plen = path_from name plen (dentry_path_raw plen)

-- Before: the loop up to the root, over the names of the entry and of those above it. It stops with what
-- is left of `len`.
pub data Walk : Type 0 where
  walked : PathBuf → Walk
  stopped : ℕ → Walk

unfoldable pub path_loop : List (List ℕ) → PathBuf → Walk
path_loop [] b = walked b
path_loop (n ∷ ns) b =
    let rest = path_loop ns (record {
      text = slash ++ n ++ b.text;
      start = b.start - suc (length n);
      len = b.len - suc (length n);
    }) in
    if ltb b.len (suc (length n)) then stopped b.len else rest

abbrev pub starts_with_slash : List ℕ → Bool
starts_with_slash [] = false
starts_with_slash (c ∷ cs) = c == 47

abbrev pub root_slash : PathBuf → PathBuf
root_slash b =
    if starts_with_slash b.text
    then b
    else record { text = slash ++ b.text; start = b.start - 1; len = b.len - 1 }

-- After the loop, whose error is not looked at either.
unfoldable pub old_end : List ℕ → Walk → PathResult
old_end name (stopped len) = if ltb len (length name) then too_long else outside
old_end name (walked b) = prepend_folder name (root_slash b)

abbrev pub first_length : List (List ℕ) → ℕ
first_length [] = 0
first_length (n ∷ ns) = length n

abbrev pub old_prlfs_get_path : List (List ℕ) → List ℕ → ℕ → PathResult
old_prlfs_get_path names name plen =
    if ltb 255 (first_length names) || ltb plen 2
    then too_long
    else old_end name (path_loop names (record { text = []; start = plen - 1; len = plen - 1 }))
