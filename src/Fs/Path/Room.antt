-- ===== src/Fs/Path/Room.antt =====
-- The room that prlfs_get_path needs.
use prl_tools.Base.{
  ℕ, suc, ◌+◌, ◌-◌, ◌≤◌, ◌<◌, ◌≡◌, ◌↔◌, refl, List, Option, some, length, arith, ltb, Bool-cases,
  inl, inr,
}
use prl_tools.Fs.Path.{outside, prepend, prepend_folder, path_from, prlfs_get_path}

-- The folder fits the buffer, and with a slash, the path and its NUL it does not.
abbrev pub IsOverrun : ℕ → List ℕ → List ℕ → Type 0
IsOverrun plen name t = (length name ≤ plen) × (plen < suc (length name) + suc (length t))

prepend_folder-outside_iff :
    (name t : List ℕ) (plen : ℕ)
    → suc (length t) ≤ plen
    → (prepend_folder name (record { text = t; start = plen - suc (length t); len = plen })
        ≡ outside)
      ↔ IsOverrun plen name t
unfolding prepend
prepend_folder-outside_iff name t plen fits =
    let start = plen - suc (length t) in
    elim (Bool-cases (ltb plen (length name))) [
      | inl long ↦ rw long ((λ h. absurd (cc h)), (λ h. absurd (ground (arith, long, h.0))))
      | inr folder ↦ elim (Bool-cases (ltb start (length name))) [
        | inl before ↦
            rw (folder, before)
              ((λ h. (ground (arith, folder), ground (arith, before, fits))), (λ h. refl))
        | inr inside ↦ elim (Bool-cases (ltb (plen - length name) 1)) [
          | inl full ↦ absurd (ground (arith, full, inside, fits))
          | inr room ↦ elim (Bool-cases (ltb (start - length name) 1)) [
            | inl at_start ↦
                rw (folder, inside)
                  (rw (room, at_start)
                    (
                      (λ h. (ground (arith, folder), ground (arith, at_start, inside, fits))),
                      (λ h. refl),
                    ))
            | inr behind ↦
                rw (folder, inside)
                  (rw (room, behind)
                    (
                      (λ h. absurd (cc h)),
                      (λ h. absurd (ground (arith, behind, inside, fits, h.1))),
                    ))
          ]
        ]
      ]
    ]

-- With a path that dentry_path_raw has put at the end of the buffer, prlfs_get_path writes in front of
-- the buffer exactly when the name of the folder alone is not longer than the buffer, and together with
-- the slash before it, the path and the NUL it is.
pub prlfs_get_path-outside_iff :
    (dentry_path_raw : ℕ → Option (List ℕ)) (name t : List ℕ) (plen : ℕ)
    → dentry_path_raw plen ≡ some t
    → suc (length t) ≤ plen
    → (prlfs_get_path dentry_path_raw name plen ≡ outside) ↔ IsOverrun plen name t
unfolding path_from
prlfs_get_path-outside_iff dentry_path_raw name t plen brings fits =
    rw brings (prepend_folder-outside_iff name t plen fits)
