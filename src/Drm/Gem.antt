-- ===== src/Drm/Gem.antt =====
-- kmods-src/prl_vid/Video/Guest/Linux/kmod/prldrm.c: gem objects and what they take: system memory, the
-- aperture, or one of the buffers that the video memory is split into. A pointer is a number, NULL is 0.
-- The state keeps which kernel buffers are allocated and which addresses the host has mapped, and how many
-- `struct prl_gem_object` are allocated and how many objects are initialised and not released.
pub mod Sizes
pub mod Balance
pub mod Failures
mod Tests
use prl_tools.Base.{
  ℕ, zero, suc, ◌+◌, ◌-◌, ◌*◌, ◌/◌, ◌%◌, ◌^◌, Bool, true, false, List, [], ◌∷◌, Option, none, some,
  leb, ◌==◌, if◌then◌else◌, ℤ, pos, neg, is_neg, ◌==ℤ◌, delete,
}
use prl_tools.Base.Errno.{enomem, einval}
use prl_tools.Drm.Aperture.{
  ApertureEntry, roundup_page, prl_drm_aperture_alloc, prl_drm_aperture_free,
}

abbrev pub prl_drm_cursor_buf_max_size : ℕ
prl_drm_cursor_buf_max_size = 64 * 1024

pub record GemObject : Type 0 where
  pub size : ℕ
  pub global_index : ℕ
  pub shared_index : ℕ
  pub kptr : ℕ
  pub aperture_addr : ℕ

-- `mask` is prl_shared_buf_avail_mask, from bit 0 on.
pub record GemState : Type 0 where
  pub alloc_size : ℕ
  pub mask : List Bool
  pub aperture : List ApertureEntry
  pub object_index : ℕ
  pub buffers : List ℕ
  pub mapped : List ℕ
  -- what kzalloc brought and kfree has not freed
  pub structs : ℕ
  -- what drm_gem_object_init took and drm_gem_object_release has not given back
  pub initialised : ℕ

-- The kernel and the host during a call: what drm_gem_object_init and the request to map return, and the
-- pointers that kmalloc and vmalloc_user bring, 0 if there is no memory.
pub record GemKernel : Type 0 where
  pub kzalloc : Bool
  pub drm_gem_object_init : ℤ
  pub kmalloc : ℕ
  pub vmalloc_user : ℕ
  pub aperture_room : Bool
  pub aperture_map : ℤ
  pub aperture_only : Bool
  pub shared_buf_size : ℕ

-- `roundup(a, 64)` on an unsigned number of 32 bits.
abbrev pub roundup_64 : ℕ → ℕ
roundup_64 a = (a + 63) % 2 ^ 32 / 64 * 64

-- `*pitch`, and `*size`, whose product is one of 32 bits.
abbrev pub dumb_pitch : ℕ → ℕ → ℕ
dumb_pitch width bpp = roundup_64 width * (bpp / 8) % 2 ^ 32

abbrev pub dumb_size : ℕ → ℕ → ℕ → ℕ
dumb_size width height bpp = roundup_page (dumb_pitch width bpp * roundup_64 height % 2 ^ 32)

abbrev pub add_size : ℕ → GemState → GemState
add_size size s = record s { alloc_size = (s.alloc_size + size) % 2 ^ 64 }

abbrev pub sub_size : ℕ → GemState → GemState
sub_size size s = record s { alloc_size = (s.alloc_size + 2 ^ 64 - size) % 2 ^ 64 }

-- The first bit that is set, with one added, or 0; and the mask without it.
unfoldable pub take_buffer : List Bool → ℕ × List Bool
take_buffer [] = (0, [])
take_buffer (true ∷ bs) = (1, false ∷ bs)
take_buffer (false ∷ bs) =
    let r = take_buffer bs in if r.0 == 0 then (0, false ∷ bs) else (suc r.0, false ∷ r.1)

-- set_bit
unfoldable pub set_bit : ℕ → List Bool → List Bool
set_bit i [] = []
set_bit zero (b ∷ bs) = true ∷ bs
set_bit (suc i) (b ∷ bs) = b ∷ set_bit i bs

-- kfree or vfree, which do nothing on NULL.
abbrev pub free_buffer : ℕ → GemState → GemState
free_buffer kptr s = record s { buffers = delete kptr s.buffers }

abbrev pub hold_buffer : ℕ → GemState → GemState
hold_buffer kptr s = record s { buffers = if kptr == 0 then s.buffers else kptr ∷ s.buffers }

abbrev pub prl_drm_aperture_unmap : ℕ → GemState → GemState
prl_drm_aperture_unmap addr s = record s { mapped = delete addr s.mapped }

abbrev pub free_aperture : ℕ → GemState → GemState
free_aperture addr s = record s { aperture = prl_drm_aperture_free addr s.aperture }

-- kfree of a `struct prl_gem_object`, and the release of an object before it. Nothing is counted below 0,
-- where the source frees what is free already.
abbrev pub free_struct : GemState → GemState
free_struct s = record s { structs = s.structs - 1 }

abbrev pub release_object : GemState → GemState
release_object s = record s { structs = s.structs - 1; initialised = s.initialised - 1 }

unfoldable pub prl_drm_gem_free_object : GemObject → GemState → GemState
prl_drm_gem_free_object go s =
    if go.kptr == 0
    then if go.shared_index == 0
      then release_object s
      else release_object (record s { mask = set_bit (go.shared_index - 1) s.mask })
    else let t =
        if go.aperture_addr == 0
        then s
        else free_aperture go.aperture_addr (prl_drm_aperture_unmap go.aperture_addr s) in
      release_object (sub_size go.size (free_buffer go.kptr t))

-- An object, or ERR_PTR of a result.
pub data GemResult : Type 0 where
  object : GemObject → GemResult
  err_ptr : ℤ → GemResult

-- The label gem_object_failed: the `struct` is freed, and what drm_gem_object_init took is not given back.
abbrev pub gem_object_failed : ℤ → GemObject → GemState → GemResult × GemState
gem_object_failed ret go s =
    if go.kptr == 0
    then (err_ptr ret, free_struct s)
    else (err_ptr ret, free_struct (free_buffer go.kptr (sub_size go.size s)))

-- The label gem_aperture_failed, which goes on to the other one.
abbrev pub gem_aperture_failed : ℤ → GemObject → GemState → GemResult × GemState
gem_aperture_failed ret go s =
    gem_object_failed ret go (if go.aperture_addr == 0 then s else free_aperture go.aperture_addr s)

-- A small buffer. IS_ERR is not true of NULL.
abbrev pub cursor_object : GemKernel → GemObject → GemState → GemResult × GemState
cursor_object k go s =
    (object (record go { kptr = k.kmalloc }), add_size go.size (hold_buffer k.kmalloc s))

-- A large buffer in the aperture.
unfoldable pub aperture_object : GemKernel → GemObject → GemState → GemResult × GemState
aperture_object k go s =
    let held = add_size go.size (hold_buffer k.vmalloc_user s) in
    let a = prl_drm_aperture_alloc k.aperture_room go.size s.aperture in
    let placed = record go { kptr = k.vmalloc_user; aperture_addr = a.0 } in
    let t = record held { aperture = a.1 } in
    if a.0 == 2 ^ 64 - enomem
    then gem_object_failed (neg enomem) placed t
    else if k.aperture_map ==ℤ pos 0
    then (object placed, record t { mapped = a.0 ∷ t.mapped })
    else gem_aperture_failed (neg einval) placed t

-- A large buffer in the video memory. `ret` is what drm_gem_object_init has returned, 0.
unfoldable pub shared_object : GemKernel → GemObject → GemState → GemResult × GemState
shared_object k go s =
    let b = take_buffer s.mask in
    if leb go.size k.shared_buf_size
    then if b.0 == 0
      then gem_object_failed (pos 0) go s
      else (object (record go { shared_index = b.0 }), record s { mask = b.1 })
    else gem_object_failed (pos 0) go s

unfoldable pub prl_drm_gem_dumb_create_helper :
    GemKernel → ℕ → ℕ → ℕ → GemState → GemResult × GemState
prl_drm_gem_dumb_create_helper k width height bpp s =
    let size = dumb_size width height bpp in
    let go : GemObject = record {
      size = size;
      global_index = s.object_index;
      shared_index = 0;
      kptr = 0;
      aperture_addr = 0;
    } in
    let there = record s { structs = s.structs + 1 } in
    let t = record there {
      object_index = (s.object_index + 1) % 2 ^ 32;
      initialised = s.initialised + 1;
    } in
    if size == 0
    then (err_ptr (neg einval), s)
    else if k.kzalloc
    then if k.drm_gem_object_init ==ℤ pos 0
      then if leb size prl_drm_cursor_buf_max_size
        then cursor_object k go t
        else if k.aperture_only
        then aperture_object k go t
        else shared_object k go t
      else gem_object_failed k.drm_gem_object_init go there
    else (err_ptr (neg enomem), s)

-- prl_drm_gem_dumb_create after the helper. `none` stands for the use of a null pointer: IS_ERR is not
-- true of ERR_PTR(0). The result of drm_gem_handle_create is an argument; if it is an error, the reference
-- that is put is the last one.
abbrev pub finish_dumb : ℤ → GemResult × GemState → Option (ℤ × GemState)
finish_dumb created (err_ptr e, s) = if is_neg e then some (e, s) else none
finish_dumb created (object go, s) =
    if created ==ℤ pos 0
    then some (pos 0, s)
    else some (created, prl_drm_gem_free_object go (prl_drm_gem_free_object go s))

unfoldable pub prl_drm_gem_dumb_create :
    GemKernel → ℤ → ℕ → ℕ → ℕ → GemState → Option (ℤ × GemState)
prl_drm_gem_dumb_create k created width height bpp s =
    finish_dumb created (prl_drm_gem_dumb_create_helper k width height bpp s)
