-- ===== src/Drm/Faults/Inside.antt =====
-- A page fault maps nothing outside of the buffer.
use prl_tools.Base.{ℕ, ◌+◌, ◌≤◌, ◌<◌, ◌≡◌}
use prl_tools.Drm.Gem.{GemObject}
use prl_tools.Drm.Faults.{VideoMemory, Mapped, nothing, video, page}

-- What is mapped is in the video memory from the buffer's place on, or a page of the kernel's buffer.
abbrev pub IsWithin : VideoMemory → ℕ → GemObject → Mapped → Type 0
IsWithin v off go nothing = Unit
IsWithin v off go (video start size) =
    (start ≡ v.mem_phys + off) × (size ≤ go.size) × (start + size ≤ v.mem_phys + v.mem_size)
IsWithin v off go (page address) = (go.kptr ≤ address) × (address < go.kptr + go.size)
