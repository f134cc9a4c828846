-- ===== src/Drm/Gem/Failures.antt =====
-- What goes wrong with gem objects.
use mathlib.Core.Option
use prl_tools.Base.{
  ℕ, ◌+◌, ◌-◌, ◌%◌, ◌^◌, ◌≤◌, ◌<◌, ◌≡◌, refl, ap, true, false, some, none, arith, ◌==◌, leb,
  Bool-cases, inl, inr, pos, ◌==ℤ◌, ◌⊎◌, ◌↔◌, ℤ,
}
use prl_tools.Drm.Gem.{
  GemState, GemKernel, dumb_size, take_buffer, prl_drm_cursor_buf_max_size, prl_drm_gem_free_object,
  shared_object, prl_drm_gem_dumb_create_helper, prl_drm_gem_dumb_create,
}

-- Without the aperture, and with memory for the object, a buffer above PRL_DRM_CURSOR_BUF_MAX_SIZE makes
-- prl_drm_gem_dumb_create use a null pointer exactly when it is larger than a buffer of the video memory
-- or none of these is left.
pub dumb_create-fault_iff :
    (k : GemKernel) (created : ℤ) (width height bpp : ℕ) (s : GemState)
    → k.kzalloc ≡ true
    → (k.drm_gem_object_init ==ℤ pos 0) ≡ true
    → k.aperture_only ≡ false
    → prl_drm_cursor_buf_max_size < dumb_size width height bpp
    → (prl_drm_gem_dumb_create k created width height bpp s ≡ none)
      ↔ ((k.shared_buf_size < dumb_size width height bpp) ⊎ ((take_buffer s.mask).0 ≡ 0))
unfolding prl_drm_gem_dumb_create prl_drm_gem_dumb_create_helper shared_object
dumb_create-fault_iff k created width height bpp s memory fine video large =
    let size = dumb_size width height bpp in
    let not_zero : (size == 0) ≡ false = ground (arith, large) in
    let not_cursor : leb size prl_drm_cursor_buf_max_size ≡ false = ground (arith, large) in
    elim (Bool-cases (leb size k.shared_buf_size)) [
      | inr beyond ↦
          rw (not_zero, memory, fine, not_cursor, video, beyond)
            ((λ h. inl (ground (arith, beyond))), (λ h. refl))
      | inl fits ↦ elim (Bool-cases ((take_buffer s.mask).0 == 0)) [
        | inl left ↦
            rw (not_zero, memory, fine, not_cursor, video, fits, left)
              ((λ h. inr (ground (arith, left))), (λ h. refl))
        | inr some_left ↦
            rw (not_zero, memory, fine, not_cursor, video, fits, some_left)
              (elim (Bool-cases (created ==ℤ pos 0)) [
                | inl there ↦
                    rw there
                      ((λ h. absurd (cc h)), (λ h. absurd (ground (arith, h, fits, some_left))))
                | inr failed ↦
                    rw failed
                      ((λ h. absurd (cc h)), (λ h. absurd (ground (arith, h, fits, some_left))))
              ])
      ]
    ]

-- If no handle can be made for an object in system memory, the object is freed twice: alloc_size falls
-- below what it was by its size, modulo 2^64.
pub dumb_create-freed_twice :
    (k : GemKernel) (created : ℤ) (width height bpp : ℕ) (s : GemState)
    → k.kzalloc ≡ true
    → (k.drm_gem_object_init ==ℤ pos 0) ≡ true
    → (k.kmalloc == 0) ≡ false
    → (created ==ℤ pos 0) ≡ false
    → s.alloc_size < 2 ^ 64
    → 0 < dumb_size width height bpp
    → dumb_size width height bpp ≤ prl_drm_cursor_buf_max_size
    → Option.map (λ r. r.1.alloc_size) (prl_drm_gem_dumb_create k created width height bpp s)
      ≡ some ((s.alloc_size + 2 ^ 64 - dumb_size width height bpp) % 2 ^ 64)
unfolding prl_drm_gem_dumb_create prl_drm_gem_dumb_create_helper prl_drm_gem_free_object
dumb_create-freed_twice k created width height bpp s memory fine kmalloc failed small some_size
      cursor =
    let size = dumb_size width height bpp in
    let not_zero : (size == 0) ≡ false = ground (arith, some_size) in
    let is_cursor : leb size prl_drm_cursor_buf_max_size ≡ true = ground (arith, cursor) in
    rw (not_zero, memory, fine, is_cursor, failed, kmalloc) (ap some (omega (arith, small, cursor)))
