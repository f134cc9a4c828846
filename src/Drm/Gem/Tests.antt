-- ===== src/Drm/Gem/Tests.antt =====
-- Gem objects at concrete inputs.
use prl_tools.Base.{◌<◌, ◌≡◌, ◌↔◌, ◌⊎◌, refl, true, false, [], ◌∷◌, none, arith, pos}
use prl_tools.Drm.Gem.{
  GemKernel, GemState, take_buffer, shared_object, dumb_size, prl_drm_gem_dumb_create_helper,
  prl_drm_gem_dumb_create,
}
use prl_tools.Drm.Gem.Balance.{IsUndone, dumb_create_helper-IsUndone}
use prl_tools.Drm.Gem.Failures.{dumb_create-fault_iff}

abbrev kernel : GemKernel
kernel = record {
  kzalloc = true;
  drm_gem_object_init = pos 0;
  kmalloc = 1000;
  vmalloc_user = 2000;
  aperture_room = true;
  aperture_map = pos 0;
  aperture_only = true;
  shared_buf_size = 5242880;
}

abbrev state : GemState
state = record {
  alloc_size = 8192;
  mask = false ∷ false ∷ [];
  aperture = record { base = 2147491840; size = 100 } ∷ [];
  object_index = 3;
  buffers = 5 ∷ [];
  mapped = 2147491840 ∷ [];
  structs = 1;
  initialised = 1;
}

vga_size : dumb_size 640 480 32 ≡ 1310720
vga_size = refl

-- 65536 rows of 2^16 bytes.
wrapped_size : dumb_size 16384 65536 32 ≡ 0
wrapped_size = refl

second_bit : take_buffer (false ∷ true ∷ true ∷ []) ≡ (2, false ∷ false ∷ true ∷ [])
unfolding take_buffer
second_bit = refl

-- No video memory is left: the object is freed, and stays initialised.
stays_initialised :
    let t =
      (prl_drm_gem_dumb_create_helper
        (record kernel { aperture_only = false })
        640
        480
        32
        state).1 in
    (t.structs ≡ 1) × (t.initialised ≡ 2)
unfolding prl_drm_gem_dumb_create_helper shared_object take_buffer
stays_initialised = (refl, refl)

dumb_create_helper-IsUndone_example :
    IsUndone state 1 (prl_drm_gem_dumb_create_helper kernel 640 480 32 state)
dumb_create_helper-IsUndone_example =
    dumb_create_helper-IsUndone kernel 640 480 32 state refl refl (omega arith)
      (omega arith, refl, omega arith, omega arith, omega arith) (omega arith)

dumb_create-fault_iff_example :
    (prl_drm_gem_dumb_create (record kernel { aperture_only = false }) (pos 0) 640 480 32 state
      ≡ none)
    ↔ ((5242880 < dumb_size 640 480 32) ⊎ ((take_buffer (false ∷ false ∷ [])).0 ≡ 0))
dumb_create-fault_iff_example =
    dumb_create-fault_iff (record kernel { aperture_only = false }) (pos 0) 640 480 32 state refl
      refl refl (omega arith)
