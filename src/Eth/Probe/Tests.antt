-- ===== src/Eth/Probe/Tests.antt =====
-- Runs of Eth/Probe.
use prl_tools.Base.{◌≡◌, refl, true, false, pos, neg}
use prl_tools.Eth.Probe.{Card, Held, pvmnet_pci_init, pvmnet_pci_remove}

abbrev card : Card
card = record { enable = pos 0; regions = pos 0; iomap = true; alloc = true; register = pos 0 }

abbrev free : Held
free = record {
  enabled = 0;
  regions = false;
  mapped = false;
  interface = false;
  netdev = false;
  registered = false;
  drvdata = false;
  fault = false;
}

taken : (pvmnet_pci_init card free).1.registered ≡ true
unfolding pvmnet_pci_init
taken = refl

given_back : pvmnet_pci_remove (pvmnet_pci_init card free).1 ≡ free
unfolding pvmnet_pci_init pvmnet_pci_remove
given_back = refl

refused : pvmnet_pci_init (record card { register = neg 17 }) free ≡ (neg 17, free)
unfolding pvmnet_pci_init
refused = refl
