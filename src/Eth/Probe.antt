-- ===== src/Eth/Probe.antt =====
-- `pvmnet_pci_init` and `pvmnet_pci_remove` of pvmnet.c: what the driver takes of the kernel for its
-- card, and gives back.
mod Tests
use prl_tools.Base.{
  ℕ, ◌+◌, ◌-◌, ◌≡◌, refl, Bool, true, false, ◌==◌, ◌==ℤ◌, if◌then◌else◌, ℤ, pos, neg, arith,
  Bool-cases, inl, inr,
}
use prl_tools.Base.Errno.{eio, enodev, enomem}

-- The results of `pci_enable_device`, `pci_request_regions` and `register_netdev`, and whether
-- `pci_iomap` and `alloc_netdev` succeed.
pub record Card : Type 0 where
  pub enable : ℤ
  pub regions : ℤ
  pub iomap : Bool
  pub alloc : Bool
  pub register : ℤ

-- What is held: how often the device is enabled, its regions, the mapping of its memory, the mode of the
-- card, the net device and its registration, the pointer to it, and whether something was given up
-- that was not held.
pub record Held : Type 0 where
  pub enabled : ℕ
  pub regions : Bool
  pub mapped : Bool
  pub interface : Bool
  pub netdev : Bool
  pub registered : Bool
  pub drvdata : Bool
  pub fault : Bool

-- At `err_req:`
abbrev err_req : Held → Held
err_req h = record h {
  enabled = h.enabled - 1;
  drvdata = false;
  fault = if h.enabled == 0 then true else h.fault;
}

-- At `err_iomap:`
abbrev err_iomap : Held → Held
err_iomap h = err_req (record h { regions = false; fault = if h.regions then h.fault else true })

-- At `err_interface:`
abbrev err_interface : Held → Held
err_interface h =
    err_iomap (record h { mapped = false; fault = if h.mapped then h.fault else true })

-- At `err_free_res:`
abbrev err_free_res : Held → Held
err_free_res h = err_interface (record h { interface = false })

-- At `err_free_netdev:`
abbrev err_free_netdev : Held → Held
err_free_netdev h =
    err_free_res (record h { netdev = false; fault = if h.netdev then h.fault else true })

-- `io_enable_interface` always returns 0.
pub pvmnet_pci_init : Card → Held → ℤ × Held
pvmnet_pci_init c h =
    let enabled = record h { enabled = h.enabled + 1 } in
    let regions = record enabled { regions = true } in
    let mapped = record regions { mapped = true } in
    let on = record mapped { interface = true } in
    let dev = record on { netdev = true; drvdata = true } in
    if c.enable ==ℤ pos 0
    then if c.regions ==ℤ pos 0
      then if c.iomap
        then if c.alloc
          then if c.register ==ℤ pos 0
            then (pos 0, record dev { registered = true })
            else (c.register, err_free_netdev dev)
          else (neg enomem, err_free_res on)
        else (neg eio, err_iomap regions)
      else (c.regions, err_req enabled)
    else (c.enable, h)

-- Without the BUG for a device that has no driver data.
pub pvmnet_pci_remove : Held → Held
pvmnet_pci_remove h =
    let gone = record h {
      registered = false;
      interface = false;
      mapped = false;
      netdev = false;
      regions = false;
      enabled = h.enabled - 1;
      drvdata = false;
    } in
    record gone {
      fault =
          if h.registered
          then if h.mapped
            then if h.netdev
              then if h.regions then if h.enabled == 0 then true else h.fault else true
              else true
            else true
          else true;
    }

-- Nothing is held of a device that is enabled `n` times.
pub record Free (n : ℕ) (h : Held) : Type 0 where
  pub enabled : h.enabled ≡ n
  pub regions : h.regions ≡ false
  pub mapped : h.mapped ≡ false
  pub interface : h.interface ≡ false
  pub netdev : h.netdev ≡ false
  pub registered : h.registered ≡ false
  pub drvdata : h.drvdata ≡ false
  pub fault : h.fault ≡ false

-- Of a card that nothing is held of, nothing is held after pvmnet_pci_init has failed, at whatever call,
-- and nothing after it has succeeded and pvmnet_pci_remove has run; and nothing was given up that was
-- not held.
pub pvmnet_pci_init-pvmnet_pci_remove :
    (c : Card) (n : ℕ) (h : Held)
    → Free n h
    → let (rc, g) = pvmnet_pci_init c h in Free n (if rc ==ℤ pos 0 then pvmnet_pci_remove g else g)
unfolding pvmnet_pci_init pvmnet_pci_remove
pvmnet_pci_init-pvmnet_pci_remove c n h f = record {
  enabled = ground (arith, f.enabled);
  regions = ground (arith, f.regions);
  mapped = ground (arith, f.mapped);
  interface = ground (arith, f.interface);
  netdev = ground (arith, f.netdev);
  registered = ground (arith, f.registered);
  drvdata = ground (arith, f.drvdata);
  fault = ground (arith, f.fault);
}
