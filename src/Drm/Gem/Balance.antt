-- ===== src/Drm/Gem/Balance.antt =====
-- What a gem object takes is given back.
use prl_tools.Base.{
  if◌then◌else◌, ℕ, suc, ◌+◌, ◌-◌, ◌%◌, ◌^◌, ◌≤◌, ◌<◌, ◌≡◌, refl, Bool, true, false, List, [], ◌∷◌,
  arith, ◌==◌, ==_refl, leb, Bool-cases, inl, inr, pos, ◌==ℤ◌, ◌⊎◌, delete,
}
use prl_tools.Base.Errno.{enomem}
use prl_tools.Drm.Aperture.{ApertureEntry, aperture_base, prl_drm_aperture_alloc}
use prl_tools.Drm.Aperture.Order.{Laid, end_of, aperture_limit}
use prl_tools.Drm.Aperture.RoundTrip.{
  prl_drm_aperture_alloc-prl_drm_aperture_free, prl_drm_aperture_alloc-bounds,
}
use prl_tools.Drm.Gem.{
  GemObject, GemState, GemKernel, GemResult, object, err_ptr, dumb_size, take_buffer, set_bit,
  prl_drm_cursor_buf_max_size, prl_drm_gem_free_object, cursor_object, aperture_object,
  shared_object, prl_drm_gem_dumb_create_helper,
}

-- The states are the same but for the numbering of objects, with that many initialised objects.
abbrev pub Restored : GemState → ℕ → GemState → Type 0
Restored s initialised t = t ≡ record s { object_index = t.object_index; initialised = initialised }

-- Freeing the object leads back to the state; without one, that many objects stay initialised.
abbrev pub IsUndone : GemState → ℕ → GemResult × GemState → Type 0
IsUndone s left (object go, t) = Restored s s.initialised (prl_drm_gem_free_object go t)
IsUndone s left (err_ptr e, t) = Restored s (s.initialised + left) t

-- Whether drm_gem_object_init is called and succeeds, as a number.
abbrev pub initialises : GemKernel → ℕ → ℕ
initialises k size =
    if size == 0
    then 0
    else if k.kzalloc
    then if k.drm_gem_object_init ==ℤ pos 0 then 1 else 0
    else 0

-- After the allocation and the initialisation of an object.
abbrev with_object : ℕ → GemState → GemState
with_object i s = record s {
  object_index = i;
  structs = s.structs + 1;
  initialised = s.initialised + 1;
}

add_zero : (n : ℕ) → n + 0 ≡ n
add_zero n = omega arith

add_one_sub_one : (n : ℕ) → n + 1 - 1 ≡ n
add_one_sub_one n = omega arith

pub take_buffer-set_bit :
    (bs : List Bool)
    → (take_buffer bs).0 ≡ 0
      ⊎ ((0 < (take_buffer bs).0) × (set_bit ((take_buffer bs).0 - 1) (take_buffer bs).1 ≡ bs))
unfolding take_buffer set_bit
take_buffer-set_bit [] = inl refl
take_buffer-set_bit (true ∷ bs) = inr (omega arith, refl)
take_buffer-set_bit (false ∷ bs) = elim (take_buffer-set_bit bs) [
  | inl none_left ↦ inl (rw none_left refl)
  | inr (found, back) ↦
      let r = take_buffer bs in
      let some_bit : (r.0 == 0) ≡ false = ground (arith, found) in
      let next : suc r.0 - 1 ≡ suc (r.0 - 1) = omega (arith, found) in
      inr (rw some_bit (omega arith, rw (next, back) refl))
]

sub_size-add_size :
    (a size : ℕ) → a < 2 ^ 64 → size < 2 ^ 64 → ((a + size) % 2 ^ 64 + 2 ^ 64 - size) % 2 ^ 64 ≡ a
sub_size-add_size a size small_a small_size = omega arith

no_entry :
    (size : ℕ) (ps : List ApertureEntry)
    → prl_drm_aperture_alloc false size ps ≡ (2 ^ 64 - enomem, ps)
unfolding prl_drm_aperture_alloc
no_entry size ps = refl

module _ (k : GemKernel) (go : GemObject) (i : ℕ) (s : GemState) (plain : go.kptr ≡ 0)
    (placeless : go.aperture_addr ≡ 0) (unshared : go.shared_index ≡ 0)
    (small : s.alloc_size < 2 ^ 64) (size_small : go.size < 2 ^ 64) where
  cursor_object-IsUndone :
      (k.kmalloc == 0) ≡ false → IsUndone s 1 (cursor_object k go (with_object i s))
  unfolding prl_drm_gem_free_object delete
  cursor_object-IsUndone memory =
      let back = sub_size-add_size s.alloc_size go.size small size_small in
      rw
        (
          placeless,
          memory,
          ==_refl k.kmalloc,
          back,
          add_one_sub_one s.structs,
          add_one_sub_one s.initialised,
        )
        refl

  shared_object-IsUndone : IsUndone s 1 (shared_object k go (with_object i s))
  unfolding prl_drm_gem_free_object shared_object
  shared_object-IsUndone = elim (Bool-cases (leb go.size k.shared_buf_size)) [
    | inr large ↦ rw (large, plain, add_one_sub_one s.structs) refl
    | inl fits ↦ elim (take_buffer-set_bit s.mask) [
      | inl none_left ↦ rw (fits, none_left, plain, add_one_sub_one s.structs) refl
      | inr (found, back) ↦
          let some_bit : ((take_buffer s.mask).0 == 0) ≡ false = ground (arith, found) in
          rw (fits, some_bit, plain)
            (rw (some_bit, back, add_one_sub_one s.structs, add_one_sub_one s.initialised) refl)
    ]
  ]

  aperture_object-IsUndone :
      (k.vmalloc_user == 0) ≡ false
      → 0 < go.size
      → Laid aperture_base s.aperture
      → end_of aperture_base s.aperture + go.size ≤ aperture_limit
      → IsUndone s 1 (aperture_object k go (with_object i s))
  unfolding prl_drm_gem_free_object aperture_object delete
  aperture_object-IsUndone memory some_size laid room =
      let back = sub_size-add_size s.alloc_size go.size small size_small in
      elim (Bool-cases k.aperture_room) [
        | inr no_room ↦
            rw
              (
                no_room,
                no_entry go.size s.aperture,
                memory,
                ==_refl k.vmalloc_user,
                back,
                add_one_sub_one s.structs,
              )
              refl
        | inl entry ↦
            let a = prl_drm_aperture_alloc true go.size s.aperture in
            let placed = prl_drm_aperture_alloc-bounds go.size s.aperture some_size laid room in
            let freed =
              prl_drm_aperture_alloc-prl_drm_aperture_free go.size s.aperture some_size laid room in
            let no_error : (a.0 == 2 ^ 64 - enomem) ≡ false = ground (arith, placed.1) in
            let address : (a.0 == 0) ≡ false = ground (arith, placed.0) in
            elim (Bool-cases (k.aperture_map ==ℤ pos 0)) [
              | inl mapped ↦
                  rw
                    (
                      entry,
                      no_error,
                      mapped,
                      memory,
                      address,
                      ==_refl a.0,
                      ==_refl k.vmalloc_user,
                      freed,
                      back,
                      add_one_sub_one s.structs,
                      add_one_sub_one s.initialised,
                    )
                    refl
              | inr unmapped ↦
                  rw
                    (
                      entry,
                      no_error,
                      unmapped,
                      memory,
                      address,
                      ==_refl k.vmalloc_user,
                      freed,
                      back,
                      add_one_sub_one s.structs,
                    )
                    refl
            ]
      ]

-- Whatever prl_drm_gem_dumb_create_helper makes of a request, freeing its object leads back to the state
-- before but for the numbering of objects; a failure leads back to it too, except that one object stays
-- initialised for ever exactly when drm_gem_object_init had succeeded: if kmalloc and vmalloc_user do
-- not fail, and the aperture's entries lie in order and apart with room after them.
pub dumb_create_helper-IsUndone :
    (k : GemKernel) (width height bpp : ℕ) (s : GemState)
    → (k.kmalloc == 0) ≡ false
    → (k.vmalloc_user == 0) ≡ false
    → s.alloc_size < 2 ^ 64
    → Laid aperture_base s.aperture
    → end_of aperture_base s.aperture + dumb_size width height bpp ≤ aperture_limit
    → IsUndone s
        (initialises k (dumb_size width height bpp))
        (prl_drm_gem_dumb_create_helper k width height bpp s)
unfolding prl_drm_gem_dumb_create_helper aperture_object shared_object
dumb_create_helper-IsUndone k width height bpp s kmalloc vmalloc small laid room =
    let size = dumb_size width height bpp in
    let go : GemObject = record {
      size = size;
      global_index = s.object_index;
      shared_index = 0;
      kptr = 0;
      aperture_addr = 0;
    } in
    let i = (s.object_index + 1) % 2 ^ 32 in
    let size_small : size < 2 ^ 64 = omega (arith, room) in
    elim (Bool-cases (size == 0)) [
      | inl nothing ↦ rw (nothing, add_zero s.initialised) refl
      | inr some_size ↦ elim (Bool-cases k.kzalloc) [
        | inr no_room ↦ rw (some_size, no_room, add_zero s.initialised) refl
        | inl memory ↦ elim (Bool-cases (k.drm_gem_object_init ==ℤ pos 0)) [
          | inr failed ↦
              rw (some_size, memory, failed, add_one_sub_one s.structs, add_zero s.initialised) refl
          | inl fine ↦ elim (Bool-cases (leb size prl_drm_cursor_buf_max_size)) [
            | inl cursor ↦
                rw (some_size, memory, fine, cursor)
                  (cursor_object-IsUndone k go i s refl refl refl small size_small kmalloc)
            | inr large ↦ elim (Bool-cases k.aperture_only) [
              | inl only ↦
                  rw (some_size, memory, fine, large, only)
                    (aperture_object-IsUndone k go i s refl refl refl small size_small vmalloc
                      (ground (arith, some_size)) laid room)
              | inr video ↦
                  rw (some_size, memory, fine, large, video)
                    (shared_object-IsUndone k go i s refl refl refl small size_small)
            ]
          ]
        ]
      ]
    ]
