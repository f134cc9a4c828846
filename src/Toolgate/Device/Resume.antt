-- ===== src/Toolgate/Device/Resume.antt =====
-- The life of a device: set up, taken down, suspended, resumed and removed.
use prl_tools.Base.{
  List, ◌+◌, ◌≡◌, ◌∷◌, ◌⊎◌, true, false, if◌then◌else◌, ◌∙◌, pos, ◌==ℤ◌, arith, Bool-cases, inl,
  inr,
}
use prl_tools.Toolgate.Device.{
  Resource, device, region_0, interrupt, is_toolgate, Machine, TgDev, err_out, prl_tg_initialize,
  prl_tg_deinitialize, prl_tg_suspend_common, prl_tg_resume_common, prl_tg_remove_common,
  pci_disable_device, pci_release_region, pci_disable_msi, free_irq,
}
use prl_tools.Toolgate.Device.Resources.{
  Idle, Working, Refused, prl_tg_initialize-Working, prl_tg_initialize-Refused,
}

deinitialize_lem :
    (d e : TgDev)
    → Working d e
    → let z = prl_tg_deinitialize e in
      Idle z
      × (z.enabled ≡ (if is_toolgate d.board then d.enabled else d.enabled + 1))
      × (z.mask ≡ 0)
      × (z.unheld ≡ d.unheld)
unfolding prl_tg_deinitialize err_out free_irq pci_disable_msi pci_release_region pci_disable_device
deinitialize_lem d e w = elim (Bool-cases e.flag_msi) [
  | inl on ↦ rw on (
    record {
      region = ground arith;
      handler = ground arith;
      msi = ground (arith, w.msi, on);
      flag = ground (arith, on);
    },
    ground (arith, w.board, w.enabled),
    ground arith,
    ground (arith, w.unheld, w.region, w.msi, w.handler, w.enabled, on),
  )
  | inr off ↦ rw off (
    record {
      region = ground arith;
      handler = ground arith;
      msi = ground (arith, w.msi, off);
      flag = ground (arith, off);
    },
    ground (arith, w.board, w.enabled),
    ground arith,
    ground (arith, w.unheld, w.region, w.msi, w.handler, w.enabled, off),
  )
]

-- A device that was idle and is set up and taken down again is idle, with its interrupts masked; nothing
-- was given up that was not held, and it is enabled as often as before on the board TOOLGATE, and once
-- more on the others.
pub prl_tg_initialize-prl_tg_deinitialize :
    (m : Machine) (d : TgDev)
    → Idle d
    → (prl_tg_initialize m d).0 ==ℤ pos 0 ≡ true
    → let z = prl_tg_deinitialize (prl_tg_initialize m d).1 in
      Idle z
      × (z.enabled ≡ (if is_toolgate d.board then d.enabled else d.enabled + 1))
      × (z.mask ≡ 0)
      × (z.unheld ≡ d.unheld)
prl_tg_initialize-prl_tg_deinitialize m d idle rc =
    deinitialize_lem d (prl_tg_initialize m d).1 (prl_tg_initialize-Working m d idle rc)

-- What is given up unheld when a device that could not be set up is removed.
remove_lem :
    (m : Machine) (d e : TgDev) (before : List Resource)
    → Refused m d e
    → d.unheld ≡ before
    → (prl_tg_remove_common e).unheld ≡ region_0 ∷ interrupt ∷ before
      ⊎ (prl_tg_remove_common e).unheld ≡ device ∷ region_0 ∷ interrupt ∷ before
unfolding prl_tg_remove_common prl_tg_deinitialize err_out free_irq pci_disable_msi
    pci_release_region pci_disable_device
remove_lem m d e before r same = elim (Bool-cases e.flag_msi) [
  | inl on ↦ rw on (ground (arith, r.region, r.handler, r.unheld, same, r.flag, on))
  | inr off ↦ rw off (ground (arith, r.region, r.handler, r.unheld, same, off))
]

resume_fails :
    (m : Machine) (d : TgDev)
    → Idle d
    → (prl_tg_resume_common m d).0 ==ℤ pos 0 ≡ false
    → Refused m d (prl_tg_resume_common m d).1
unfolding prl_tg_resume_common
resume_fails m d idle rc = elim (Bool-cases ((prl_tg_initialize m d).0 ==ℤ pos 0)) [
  | inl done ↦ absurd (cc (rw done at rc))
  | inr lost ↦ rw lost (prl_tg_initialize-Refused m d idle lost)
]

-- When a device that was set up is suspended and its resumption fails, nothing was given up so far that
-- was not held, but its removal gives up the interrupt and then the region, which are not held any more,
-- and after them at most the enabling of the device.
pub prl_tg_resume_common-removed :
    (m n : Machine) (d : TgDev)
    → Idle d
    → (prl_tg_initialize m d).0 ==ℤ pos 0 ≡ true
    → let s = prl_tg_suspend_common (prl_tg_initialize m d).1 in
      (prl_tg_resume_common n s).0 ==ℤ pos 0 ≡ false
      → let e = (prl_tg_resume_common n s).1 in
        let removed = (prl_tg_remove_common e).unheld in
        (e.unheld ≡ d.unheld)
        × (removed ≡ region_0 ∷ interrupt ∷ d.unheld
            ⊎ removed ≡ device ∷ region_0 ∷ interrupt ∷ d.unheld)
unfolding prl_tg_suspend_common
prl_tg_resume_common-removed m n d idle rc lost =
    let (asleep, enabled, mask, unheld) = prl_tg_initialize-prl_tg_deinitialize m d idle rc in
    let s = prl_tg_suspend_common (prl_tg_initialize m d).1 in
    let r = resume_fails n s asleep lost in
    (r.unheld ∙ unheld, remove_lem n s (prl_tg_resume_common n s).1 d.unheld r unheld)
