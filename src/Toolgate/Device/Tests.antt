-- ===== src/Toolgate/Device/Tests.antt =====
-- Tests and witnesses for Toolgate/Device.
use prl_tools.Base.{◌≡◌, ◌⊎◌, [], ◌∷◌, refl, true, false, ℤ, pos, neg, ◌==ℤ◌}
use prl_tools.Toolgate.Device.{
  device, region_0, interrupt, toolgate, video_toolgate, Machine, TgDev, prl_tg_initialize,
  prl_tg_deinitialize, prl_tg_suspend_common, prl_tg_resume_common, prl_tg_remove_common,
  prl_tg_interrupt, init_board, init_dma, init_irq, video_memory, err_out, pci_disable_device,
  pci_release_region, pci_disable_msi, free_irq,
}
use prl_tools.Toolgate.Device.Resources.{Idle}
use prl_tools.Toolgate.Device.Resume.{
  prl_tg_initialize-prl_tg_deinitialize, prl_tg_resume_common-removed,
}

-- A machine with MSI whose `request_irq` returns `irq`.
abbrev machine : ℤ → Machine
machine irq = record {
  enable = pos 0;
  io_resource = true;
  io_len = 32;
  io_start = 0x8000;
  mem_resource = true;
  mem_start = 0xe0000000;
  capabilities = 0x10001;
  mem_size = 32;
  dma = pos 0;
  region = pos 0;
  caps = 0;
  msi = pos 0;
  irq_line = 11;
  request_irq = irq;
  kmalloc = true;
  proc = true;
}

abbrev idle : TgDev
idle = record {
  board = toolgate;
  flag_msi = false;
  flag_outs = false;
  irq = 0;
  base_addr = 0;
  capabilities = 0;
  mem_phys = 0;
  mem_size = 0;
  enabled = 1;
  region = false;
  msi = false;
  handler = false;
  mask = 0;
  vga = 0;
  proc = false;
  works = 0;
  unheld = [];
}

idle-Idle : Idle idle
idle-Idle = record { region = refl; handler = refl; msi = refl; flag = refl }

works : (prl_tg_initialize (machine (pos 0)) idle).0 ==ℤ pos 0 ≡ true
unfolding prl_tg_initialize init_board init_dma init_irq
works = refl

fails : (prl_tg_initialize (machine (neg 16)) idle).0 ==ℤ pos 0 ≡ false
unfolding prl_tg_initialize init_board init_dma init_irq
fails = refl

-- MSI stays on after a failed `request_irq`.
msi_left_on : (prl_tg_initialize (machine (neg 16)) idle).1.msi ≡ true
unfolding prl_tg_initialize init_board init_dma init_irq err_out pci_release_region
    pci_disable_device
msi_left_on = refl

-- The video board keeps the capabilities that the device had before its own are written.
aperture :
    let e = (prl_tg_initialize (machine (pos 0)) (record idle { board = video_toolgate })).1 in
    (e.capabilities ≡ 0x10001) × (e.vga ≡ 1)
unfolding prl_tg_initialize init_board init_dma init_irq video_memory
aperture = (refl, refl)

interrupt_not_ours : prl_tg_interrupt 0 idle ≡ (false, idle)
unfolding prl_tg_interrupt
interrupt_not_ours = refl

prl_tg_initialize-prl_tg_deinitialize_example :
    let z = prl_tg_deinitialize (prl_tg_initialize (machine (pos 0)) idle).1 in
    Idle z × (z.enabled ≡ 1) × (z.mask ≡ 0) × (z.unheld ≡ [])
prl_tg_initialize-prl_tg_deinitialize_example =
    prl_tg_initialize-prl_tg_deinitialize (machine (pos 0)) idle idle-Idle works

resume_fails :
    let s = prl_tg_suspend_common (prl_tg_initialize (machine (pos 0)) idle).1 in
    (prl_tg_resume_common (machine (neg 16)) s).0 ==ℤ pos 0 ≡ false
unfolding prl_tg_resume_common prl_tg_suspend_common prl_tg_deinitialize prl_tg_initialize
    init_board init_dma init_irq err_out pci_release_region pci_disable_device pci_disable_msi
    free_irq
resume_fails = refl

prl_tg_resume_common-removed_example :
    let s = prl_tg_suspend_common (prl_tg_initialize (machine (pos 0)) idle).1 in
    let e = (prl_tg_resume_common (machine (neg 16)) s).1 in
    let removed = (prl_tg_remove_common e).unheld in
    (e.unheld ≡ [])
    × (removed ≡ region_0 ∷ interrupt ∷ [] ⊎ removed ≡ device ∷ region_0 ∷ interrupt ∷ [])
prl_tg_resume_common-removed_example =
    prl_tg_resume_common-removed (machine (pos 0)) (machine (neg 16)) idle idle-Idle works
      resume_fails
