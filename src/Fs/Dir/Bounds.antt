-- ===== src/Fs/Dir/Bounds.antt =====
-- The loop over the records ends, and looks at nothing outside the buffer.
use prl_tools.Base.{
  ℕ, zero, suc, ◌+◌, ◌≤◌, ◌<◌, ◌≡◌, refl, Bool, some, [], ◌==◌, ltb, ℤ, arith, All, length,
  Bool-cases, inl, inr,
}
use prl_tools.Fs.Dir.{Emit, Filled, emitted, rec_len, fill_loop, prlfs_fill_dir, file_type}

-- The name and the NUL after it stand in the buffer.
pub record IsInside (buf : ℕ → ℕ) (buflen : ℕ) (e : Emit) : Type 0 where
  pub named : 0 < e.name_len
  pub inside : e.name + e.name_len < buflen
  pub terminated : buf (e.name + e.name_len) ≡ 0

-- What the loop returns from a position.
pub record IsFilled (buf : ℕ → ℕ) (buflen dir_pos : ℕ) (r : Filled) : Type 0 where
  pub all_inside : All (IsInside buf buflen) r.emits
  pub lower : dir_pos ≤ r.dir_pos
  pub upper : r.dir_pos ≤ dir_pos + length r.emits
  pub within_one : dir_pos + length r.emits ≤ r.dir_pos + 1

nothing-IsFilled :
    (buf : ℕ → ℕ) (buflen dir_pos : ℕ) (ret : ℤ)
    → IsFilled buf buflen dir_pos (record { ret = ret; dir_pos = dir_pos; emits = [] })
nothing-IsFilled buf buflen dir_pos ret = record {
  all_inside = tt;
  lower = omega arith;
  upper = omega arith;
  within_one = omega arith;
}

fill_loop-IsFilled :
    (fuel : ℕ) (room : ℕ → Bool) (buf : ℕ → ℕ) (buflen offset dir_pos : ℕ)
    → offset ≤ buflen
    → buflen < fuel + offset
    → (r : Filled) × (fill_loop fuel room buf buflen offset dir_pos ≡ some r)
      × IsFilled buf buflen dir_pos r
unfolding fill_loop emitted
fill_loop-IsFilled zero room buf buflen offset dir_pos within enough = absurd (omega arith)
fill_loop-IsFilled (suc fuel) room buf buflen offset dir_pos within enough =
    elim (Bool-cases (ltb buflen (offset + 3))) [
      | inl short ↦ rw short (_, refl, nothing-IsFilled buf buflen dir_pos _)
      | inr long ↦ elim (Bool-cases (buf offset == 0)) [
        | inl last ↦ rw (long, last) (_, refl, nothing-IsFilled buf buflen dir_pos _)
        | inr more ↦ elim (Bool-cases (ltb buflen (rec_len (buf offset) + offset))) [
          | inl beyond ↦ rw (long, more, beyond) (_, refl, nothing-IsFilled buf buflen dir_pos _)
          | inr inside ↦ elim (Bool-cases (buf (offset + 2 + buf offset) == 0)) [
            | inr open_end ↦
                rw (long, more, inside, open_end) (_, refl, nothing-IsFilled buf buflen dir_pos _)
            | inl closed ↦
                let i : IsInside buf buflen (record {
                  name = offset + 2;
                  name_len = buf offset;
                  dtype = file_type (buf (offset + 1));
                }) =
                  record {
                    named = ground (arith, more);
                    inside = ground (arith, inside);
                    terminated = ground (arith, closed);
                  } in
                elim (Bool-cases (room dir_pos)) [
                  | inr full ↦
                      rw (long, more, inside, closed, full)
                        (
                          _,
                          refl,
                          record {
                            all_inside = (i, tt);
                            lower = omega arith;
                            upper = omega arith;
                            within_one = omega arith;
                          },
                        )
                  | inl taken ↦
                      let (r, e, f) =
                        fill_loop-IsFilled fuel room buf buflen (offset + rec_len (buf offset))
                          (dir_pos + 1) (ground (arith, inside)) (ground (arith, enough)) in
                      rw (long, more, inside, closed, taken, e)
                        (
                          _,
                          refl,
                          record {
                            all_inside = (i, f.all_inside);
                            lower = omega (arith, f.lower);
                            upper = omega (arith, f.upper);
                            within_one = omega (arith, f.within_one);
                          },
                        )
                ]
          ]
        ]
      ]
    ]

-- prlfs_fill_dir always returns, each name that it hands to dir_emit is not empty and stands in the
-- buffer with the NUL that ends it, and the position moves by the number of these names, less at most
-- one for which there was no room.
pub prlfs_fill_dir-IsFilled :
    (room : ℕ → Bool) (buf : ℕ → ℕ) (buflen dir_pos : ℕ)
    → (r : Filled) × (prlfs_fill_dir room buf buflen dir_pos ≡ some r)
      × IsFilled buf buflen dir_pos r
unfolding prlfs_fill_dir
prlfs_fill_dir-IsFilled room buf buflen dir_pos =
    fill_loop-IsFilled (suc buflen) room buf buflen 0 dir_pos (omega arith) (omega arith)
