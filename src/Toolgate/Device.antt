-- ===== src/Toolgate/Device.antt =====
-- The Toolgate device in prltg.c: `prl_tg_initialize`, `prl_tg_deinitialize`, `prl_tg_probe_common`,
-- `prl_tg_remove_common`, suspend, resume and the interrupt. The state is what the device and the driver
-- hold of the kernel.
pub mod Resources
pub mod Resume
mod Tests
use prl_tools.Base.{
  ℕ, ◌+◌, ◌-◌, ◌*◌, ◌%◌, ◌^◌, Bool, true, false, not, List, [], ◌∷◌, ◌==◌, ltb, ◌&&◌, if◌then◌else◌,
  ℤ, pos, neg, ◌==ℤ◌,
}
use prl_tools.Base.Errno.{enodev, enomem}

-- `board_t`
pub data Board : Type 0 where
  toolgate : Board
  video_toolgate : Board
  video_drm_toolgate : Board

abbrev pub is_toolgate : Board → Bool
is_toolgate toolgate = true
is_toolgate video_toolgate = false
is_toolgate video_drm_toolgate = false

abbrev pub is_drm : Board → Bool
is_drm toolgate = false
is_drm video_toolgate = false
is_drm video_drm_toolgate = true

-- What the kernel and the device answer: the results of `pci_enable_device`, `pci_set_dma_mask`,
-- `pci_request_region`, `pci_enable_msi` and `request_irq`, whether the regions are of the right kind,
-- their lengths and starts, the values read from the ports, the interrupt's number, and `kmalloc`.
pub record Machine : Type 0 where
  pub enable : ℤ
  pub io_resource : Bool
  pub io_len : ℕ
  pub io_start : ℕ
  pub mem_resource : Bool
  pub mem_start : ℕ
  pub capabilities : ℕ
  pub mem_size : ℕ
  pub dma : ℤ
  pub region : ℤ
  pub caps : ℕ
  pub msi : ℤ
  pub irq_line : ℕ
  pub request_irq : ℤ
  pub kmalloc : Bool
  pub proc : Bool

-- What is held of the kernel for a device.
pub data Resource : Type 0 where
  device region_0 msi_vector interrupt : Resource

-- `struct tg_dev` with what is held for it: how often the PCI device is enabled, its region, MSI and the
-- interrupt handler; `mask` is the port TG_PORT_MASK, `vga` the last value written to VGA_SEQ_D at
-- register 0xae, `procs` the entries in /proc, `unheld` is what was given up without
-- being held, the latest first.
pub record TgDev : Type 0 where
  pub board : Board
  pub flag_msi : Bool
  pub flag_outs : Bool
  pub irq : ℕ
  pub base_addr : ℕ
  pub capabilities : ℕ
  pub mem_phys : ℕ
  pub mem_size : ℕ
  pub enabled : ℕ
  pub region : Bool
  pub msi : Bool
  pub handler : Bool
  pub mask : ℕ
  pub vga : ℕ
  pub proc : Bool
  pub works : ℕ
  pub unheld : List Resource

abbrev pub tg_max_port : ℕ
tg_max_port = 0x18

-- `FOURCC('O', 'U', 'T', 'D')`
abbrev pub outd : ℕ
outd = 0x4454554f

abbrev pub tg_mask_complete : ℕ
tg_mask_complete = 1

pub pci_disable_device : TgDev → TgDev
pci_disable_device d = record d {
  enabled = d.enabled - 1;
  unheld = if d.enabled == 0 then device ∷ d.unheld else d.unheld;
}

pub pci_release_region : TgDev → TgDev
pci_release_region d = record d {
  region = false;
  unheld = if d.region then d.unheld else region_0 ∷ d.unheld;
}

pub pci_disable_msi : TgDev → TgDev
pci_disable_msi d = record d {
  msi = false;
  unheld = if d.msi then d.unheld else msi_vector ∷ d.unheld;
}

pub free_irq : TgDev → TgDev
free_irq d = record d {
  handler = false;
  unheld = if d.handler then d.unheld else interrupt ∷ d.unheld;
}

-- At `err_out:`
pub err_out : TgDev → TgDev
unfolding pci_disable_device
err_out d = if is_toolgate d.board then pci_disable_device d else d

-- The registers of the video boards, under PRLVTG_MMAP.
pub video_memory : Machine → TgDev → TgDev
video_memory m d = record d {
  mem_phys = m.mem_start;
  capabilities = m.capabilities;
  vga = m.capabilities % 2 ^ 16 + (if is_drm d.board then 2 * 2 ^ 16 else 0);
  mem_size = m.mem_size * (1024 * 1024);
}

-- From TG_PORT_CAPS on.
pub init_irq : Machine → TgDev → ℤ × TgDev
unfolding err_out pci_release_region
init_irq m d =
    let outs = record d { flag_outs = if m.caps == outd then d.flag_outs else true } in
    let msi = if m.msi ==ℤ pos 0 then record outs { flag_msi = true; msi = true } else outs in
    let e = record msi { irq = m.irq_line } in
    if m.request_irq ==ℤ pos 0
    then (pos 0, record e { handler = true })
    else (m.request_irq, err_out (pci_release_region e))

-- From the DMA mask on.
pub init_dma : Machine → TgDev → ℤ × TgDev
unfolding init_irq err_out
init_dma m d =
    if m.dma ==ℤ pos 0
    then if m.region ==ℤ pos 0
      then init_irq m (record d { region = true; base_addr = m.io_start })
      else (m.region, err_out d)
    else (m.dma, err_out d)

-- From the memory of the board on.
pub init_board : Machine → TgDev → ℤ × TgDev
unfolding init_dma video_memory err_out
init_board m d =
    if is_toolgate d.board
    then init_dma m d
    else if m.mem_resource
    then init_dma m (video_memory m d)
    else (neg enodev, err_out d)

pub prl_tg_initialize : Machine → TgDev → ℤ × TgDev
unfolding init_board err_out
prl_tg_initialize m d =
    let e = record d { enabled = d.enabled + 1 } in
    if m.enable ==ℤ pos 0
    then if m.io_resource && not (ltb m.io_len tg_max_port)
      then init_board m e
      else (neg enodev, err_out e)
    else (m.enable, d)

pub prl_tg_deinitialize : TgDev → TgDev
unfolding free_irq pci_disable_msi pci_release_region err_out
prl_tg_deinitialize d =
    let e = free_irq (record d { mask = 0 }) in
    let f = if e.flag_msi then pci_disable_msi (record e { flag_msi = false }) else e in
    err_out (pci_release_region f)

-- The result, whether `dev` lives on, and what is held.
pub prl_tg_probe_common : Machine → Board → TgDev → ℤ × Bool × TgDev
unfolding prl_tg_initialize
prl_tg_probe_common m board d =
    let fresh = record d {
      board = board;
      flag_msi = false;
      flag_outs = false;
      mem_phys = 0;
      mem_size = 0;
    } in
    let (rc, e) = prl_tg_initialize m fresh in
    let f = record e { mask = tg_mask_complete } in
    if m.kmalloc
    then if rc ==ℤ pos 0
      then (pos 0, true, if is_drm board then f else record f { proc = m.proc })
      else (rc, false, e)
    else (neg enomem, false, d)

pub prl_tg_remove_common : TgDev → TgDev
unfolding prl_tg_deinitialize
prl_tg_remove_common d =
    prl_tg_deinitialize (if is_drm d.board then d else record d { proc = false })

-- After `tg_req_cancel_all`.
pub prl_tg_suspend_common : TgDev → TgDev
unfolding prl_tg_deinitialize
prl_tg_suspend_common d = prl_tg_deinitialize d

pub prl_tg_resume_common : Machine → TgDev → ℤ × TgDev
unfolding prl_tg_initialize
prl_tg_resume_common m d =
    let (rc, e) = prl_tg_initialize m d in
    if rc ==ℤ pos 0 then (pos 0, record e { mask = tg_mask_complete }) else (rc, e)

-- `status` is what TG_PORT_STATUS reads.
pub prl_tg_interrupt : ℕ → TgDev → Bool × TgDev
prl_tg_interrupt status d =
    let s = if d.flag_msi then tg_mask_complete else status in
    if s == 0 then (false, d) else (true, record d { works = d.works + 1 })
