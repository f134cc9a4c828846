-- ===== src/Drm/Faults/Tests.antt =====
-- Page faults at concrete inputs.
use prl_tools.Base.{ℕ, ◌≡◌, refl, true, ℤ, pos}
use prl_tools.Drm.Gem.{GemObject}
use prl_tools.Drm.Faults.{
  VmFault, nopage, Vma, VideoMemory, video, prl_drm_mmap, prl_drm_gem_vm_fault,
}

abbrev memory : VideoMemory
memory = record { mem_phys = 4294967296; mem_size = 67108864 }

abbrev second : GemObject
second = record { size = 1310720; global_index = 1; shared_index = 2; kptr = 0; aperture_addr = 0 }

abbrev mapping : Vma
mapping = record { vm_start = 8192; vm_end = 1318912 }

abbrev maps : ℕ → ℕ → ℤ
maps start size = pos 0

abbrev inserts : ℕ → VmFault
inserts address = nopage

second_shown :
    (prl_drm_gem_vm_fault true inserts maps memory 5242880 mapping second 0 9000).mapped
    ≡ video 4300210176 1310720
unfolding prl_drm_gem_vm_fault prl_drm_mmap
second_shown = refl
