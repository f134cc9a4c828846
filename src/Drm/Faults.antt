-- ===== src/Drm/Faults.antt =====
-- kmods-src/prl_vid/Video/Guest/Linux/kmod/prldrm.c: the mapping of buffers into the memory of processes.
-- What the kernel makes of a mapping is a parameter.
pub mod Inside
mod Tests
use prl_tools.Base.{
  ℕ, ◌+◌, ◌-◌, ◌*◌, ◌%◌, ◌^◌, Bool, true, false, not, ◌&&◌, ◌||◌, Option, none, some, ltb, ◌==◌,
  if◌then◌else◌, ℤ, pos, neg, ◌==ℤ◌,
}
use prl_tools.Base.Errno.{eagain, erestartsys, eintr, ebusy, enomem}
use prl_tools.Drm.Gem.{GemObject}

pub data VmFault : Type 0 where
  nopage : VmFault
  oom : VmFault
  sigbus : VmFault

-- `ret & VM_FAULT_ERROR`
abbrev pub is_error : VmFault → Bool
is_error nopage = false
is_error oom = true
is_error sigbus = true

-- The end of prl_drm_mmap.
abbrev pub fault_of : ℤ → VmFault
fault_of ret =
    if (ret ==ℤ pos 0)
      || (ret ==ℤ neg eagain)
      || (ret ==ℤ neg erestartsys)
      || (ret ==ℤ neg eintr)
      || (ret ==ℤ neg ebusy)
    then nopage
    else if ret ==ℤ neg enomem
    then oom
    else sigbus

-- A process's mapping: from `vm_start` up to `vm_end`.
pub record Vma : Type 0 where
  pub vm_start : ℕ
  pub vm_end : ℕ

-- The video memory of the device.
pub record VideoMemory : Type 0 where
  pub mem_phys : ℕ
  pub mem_size : ℕ

-- What was mapped, as its physical address and its size, and the result.
unfoldable pub prl_drm_mmap : (ℕ → ℕ → ℤ) → VideoMemory → Vma → ℕ → VmFault × Option (ℕ × ℕ)
prl_drm_mmap vm_iomap_memory v vma mem_off =
    let size = vma.vm_end - vma.vm_start in
    let start = (v.mem_phys + mem_off) % 2 ^ 64 in
    if ltb ((v.mem_size + 2 ^ 64 - mem_off) % 2 ^ 64) size
    then (oom, none)
    else (fault_of (vm_iomap_memory start size), some (start, size))

-- What a page fault maps: a part of the video memory, or the page of a kernel address.
pub data Mapped : Type 0 where
  nothing : Mapped
  video : ℕ → ℕ → Mapped
  page : ℕ → Mapped

abbrev pub video_mapped : Option (ℕ × ℕ) → Mapped
video_mapped none = nothing
video_mapped (some m) = video m.0 m.1

-- The result, prl_go->uptr afterwards, and what was mapped.
pub record Faulted : Type 0 where
  pub ret : VmFault
  pub uptr : ℕ
  pub mapped : Mapped

abbrev pub faulted : VmFault → ℕ → ℕ → Mapped → Faulted
faulted ret start uptr m = record {
  ret = ret;
  uptr = if is_error ret then uptr else start;
  mapped = m;
}

-- `shared_index - 1` is an int, which is not negative here; the product has 64 bits.
abbrev pub phys_off : ℕ → GemObject → ℕ
phys_off shared_buf_size go = (go.shared_index - 1) * shared_buf_size % 2 ^ 64

-- `locked` says whether mutex_lock_interruptible has got the lock, and `insert` is the result of
-- prl_vm_insert_mixed for the page at a kernel address.
unfoldable pub prl_drm_gem_vm_fault :
    Bool → (ℕ → VmFault) → (ℕ → ℕ → ℤ) → VideoMemory → ℕ → Vma → GemObject → ℕ → ℕ → Faulted
prl_drm_gem_vm_fault locked insert vm_iomap_memory v shared_buf_size vma go uptr address =
    let m = prl_drm_mmap vm_iomap_memory v vma (phys_off shared_buf_size go) in
    let kernel = go.kptr + (address - vma.vm_start) in
    if ltb vma.vm_end address
    then record { ret = oom; uptr = uptr; mapped = nothing }
    else if not locked
    then record { ret = sigbus; uptr = uptr; mapped = nothing }
    else if go.shared_index == 0
    then faulted (insert kernel) vma.vm_start uptr (page kernel)
    else if uptr == 0
    then faulted m.0 vma.vm_start uptr (video_mapped m.1)
    else record { ret = nopage; uptr = uptr; mapped = nothing }
