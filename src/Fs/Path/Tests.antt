-- ===== src/Fs/Path/Tests.antt =====
-- Paths in small buffers.
use prl_tools.Base.{ℕ, ◌≡◌, ◌↔◌, refl, List, [], ◌∷◌, Option, some, arith}
use prl_tools.Fs.Path.{
  path, outside, prepend, path_from, prlfs_get_path, path_loop, old_end, old_prlfs_get_path,
}
use prl_tools.Fs.Path.Room.{IsOverrun, prlfs_get_path-outside_iff}

-- "/a", for any buffer, and the folder "f".
abbrev raw : ℕ → Option (List ℕ)
raw plen = some (47 ∷ 97 ∷ [])

abbrev folder : List ℕ
folder = 102 ∷ []

enough :
    prlfs_get_path raw folder 5
    ≡ path (record { text = 47 ∷ 102 ∷ 47 ∷ 97 ∷ []; start = 0; len = 3 })
unfolding path_from prepend
enough = refl

old_enough :
    old_prlfs_get_path ((97 ∷ []) ∷ []) folder 5
    ≡ path (record { text = 47 ∷ 102 ∷ 47 ∷ 97 ∷ []; start = 0; len = 0 })
unfolding old_end path_loop prepend
old_enough = refl

prlfs_get_path-outside_iff_example :
    (prlfs_get_path raw folder 4 ≡ outside) ↔ IsOverrun 4 folder (47 ∷ 97 ∷ [])
prlfs_get_path-outside_iff_example =
    prlfs_get_path-outside_iff raw folder (47 ∷ 97 ∷ []) 4 refl (omega arith)
