-- ===== src/Toolgate/Device/Resources.antt =====
-- What the driver holds of the kernel for its device, after each way through `prl_tg_initialize`.
use prl_tools.Base.{
  sym, ◌∙◌, ◌+◌, ◌≡◌, refl, Bool, true, false, not, ◌==◌, ltb, ◌&&◌, if◌then◌else◌, ℤ, pos, neg,
  ◌==ℤ◌, arith, Bool-cases, inl, inr,
}
use prl_tools.Base.Errno.{enodev}
use prl_tools.Toolgate.Device.{
  is_toolgate, Machine, TgDev, tg_max_port, outd, err_out, video_memory, init_irq, init_dma,
  init_board, prl_tg_initialize, pci_disable_device, pci_release_region,
}

-- A device of which nothing is held but what enables it.
pub record Idle (d : TgDev) : Type 0 where
  pub region : d.region ≡ false
  pub handler : d.handler ≡ false
  pub msi : d.msi ≡ false
  pub flag : d.flag_msi ≡ false

-- A device that works, where `d` was before.
pub record Working (d e : TgDev) : Type 0 where
  pub board : e.board ≡ d.board
  pub enabled : e.enabled ≡ d.enabled + 1
  pub region : e.region ≡ true
  pub handler : e.handler ≡ true
  pub msi : e.msi ≡ e.flag_msi
  pub unheld : e.unheld ≡ d.unheld

-- A device that could not be set up, where `d` was before: MSI may be left on after `request_irq`.
pub record Refused (m : Machine) (d e : TgDev) : Type 0 where
  pub board : e.board ≡ d.board
  pub enabled : is_toolgate d.board ≡ true → e.enabled ≡ d.enabled
  pub region : e.region ≡ false
  pub handler : e.handler ≡ false
  pub flag : e.msi ≡ e.flag_msi
  pub msi : e.msi ≡ true → (m.msi ==ℤ pos 0) && not (m.request_irq ==ℤ pos 0) ≡ true
  pub unheld : e.unheld ≡ d.unheld

abbrev Outcome : Machine → TgDev → ℤ × TgDev → Type 0
Outcome m d (rc, e) = (rc ==ℤ pos 0 ≡ true → Working d e) × (rc ==ℤ pos 0 ≡ false → Refused m d e)

-- An enabled device, with its region or without.
record Enabled (with_region : Bool) (d e : TgDev) : Type 0 where
  board : e.board ≡ d.board
  enabled : e.enabled ≡ d.enabled + 1
  region : e.region ≡ with_region
  handler : e.handler ≡ false
  msi : e.msi ≡ false
  flag : e.flag_msi ≡ false
  unheld : e.unheld ≡ d.unheld

refuse : (m : Machine) (d e : TgDev) → Enabled false d e → Refused m d (err_out e)
unfolding err_out pci_disable_device
refuse m d e s = record {
  board = ground (arith, s.board);
  enabled = λ t. ground (arith, s.board, s.enabled, t);
  region = ground (arith, s.region);
  handler = ground (arith, s.handler);
  flag = ground (arith, s.msi, s.flag);
  msi = λ on. ground (arith, s.msi, on);
  unheld = ground (arith, s.unheld, s.enabled);
}

-- What remains when a step fails with a result that is not 0.
failed :
    (m : Machine) (d e : TgDev) (rc : ℤ)
    → rc ==ℤ pos 0 ≡ false
    → Refused m d e
    → Outcome m d (rc, e)
failed m d e rc no_zero r = (λ zero_rc. absurd (cc (zero_rc, no_zero)), λ h. r)

-- Before `request_irq`.
abbrev irq_ready : Machine → TgDev → TgDev
irq_ready m e =
    let outs = record e { flag_outs = if m.caps == outd then e.flag_outs else true } in
    let msi = if m.msi ==ℤ pos 0 then record outs { flag_msi = true; msi = true } else outs in
    record msi { irq = m.irq_line }

irq_ready_lem :
    (m : Machine) (d e : TgDev)
    → Enabled true d e
    → let f = irq_ready m e in
      (f.board ≡ d.board)
      × (f.enabled ≡ d.enabled + 1)
      × (f.region ≡ true)
      × (f.handler ≡ false)
      × (f.msi ≡ f.flag_msi)
      × (f.msi ≡ true → m.msi ==ℤ pos 0 ≡ true)
      × (f.unheld ≡ d.unheld)
irq_ready_lem m d e s = elim (Bool-cases (m.msi ==ℤ pos 0)) [
  | inl on ↦ rw on (s.board, s.enabled, s.region, s.handler, refl, λ h. refl, s.unheld)
  | inr off ↦ rw off (
    s.board,
    s.enabled,
    s.region,
    s.handler,
    s.msi ∙ sym s.flag,
    λ h. absurd (cc (h, s.msi)),
    s.unheld,
  )
]

init_irq-Outcome : (m : Machine) (d e : TgDev) → Enabled true d e → Outcome m d (init_irq m e)
unfolding init_irq err_out pci_release_region pci_disable_device
init_irq-Outcome m d e s =
    let f = irq_ready m e in
    let (board, enabled, region, handler, msi, msi_on, unheld) = irq_ready_lem m d e s in
    elim (Bool-cases (m.request_irq ==ℤ pos 0)) [
      | inl got ↦ rw got (
        λ h. record {
          board = board;
          enabled = enabled;
          region = region;
          handler = refl;
          msi = msi;
          unheld = unheld;
        },
        λ h. absurd (cc h),
      )
      | inr lost ↦ rw lost (
          failed m d (err_out (pci_release_region f)) m.request_irq lost (record {
            board = ground (arith, board);
            enabled = λ t. ground (arith, board, enabled, t);
            region = ground arith;
            handler = ground (arith, handler);
            flag = ground (arith, msi);
            msi = λ on. rw lost (ground (arith, msi_on, on));
            unheld = ground (arith, unheld, enabled, region);
          }))
    ]

init_dma-Outcome : (m : Machine) (d e : TgDev) → Enabled false d e → Outcome m d (init_dma m e)
unfolding init_dma
init_dma-Outcome m d e s = elim (Bool-cases (m.dma ==ℤ pos 0)) [
  | inr no_dma ↦ rw no_dma (failed m d (err_out e) m.dma no_dma (refuse m d e s))
  | inl dma ↦ elim (Bool-cases (m.region ==ℤ pos 0)) [
    | inr taken ↦ rw (dma, taken) (failed m d (err_out e) m.region taken (refuse m d e s))
    | inl region ↦
        rw (dma, region)
          (init_irq-Outcome m d (record e { region = true; base_addr = m.io_start })
            (record {
              board = s.board;
              enabled = s.enabled;
              region = refl;
              handler = s.handler;
              msi = s.msi;
              flag = s.flag;
              unheld = s.unheld;
            }))
  ]
]

init_board-Outcome : (m : Machine) (d e : TgDev) → Enabled false d e → Outcome m d (init_board m e)
unfolding init_board video_memory
init_board-Outcome m d e s =
    let v = video_memory m e in
    let video : Enabled false d v = record {
      board = s.board;
      enabled = s.enabled;
      region = s.region;
      handler = s.handler;
      msi = s.msi;
      flag = s.flag;
      unheld = s.unheld;
    } in
    let other : Outcome m d (if m.mem_resource then init_dma m v else (neg enodev, err_out e)) =
      elim m.mem_resource
        as (λ t. Outcome m d (if t then init_dma m v else (neg enodev, err_out e))) [
          | true ↦ init_dma-Outcome m d v video
          | false ↦ failed m d (err_out e) (neg enodev) refl (refuse m d e s)
        ] in
    elim (is_toolgate e.board)
      as (λ t. Outcome m d (
        if t
        then init_dma m e
        else (if m.mem_resource then init_dma m v else (neg enodev, err_out e)))) [
          | true ↦ init_dma-Outcome m d e s
          | false ↦ other
        ]

prl_tg_initialize-Outcome : (m : Machine) (d : TgDev) → Idle d → Outcome m d (prl_tg_initialize m d)
unfolding prl_tg_initialize
prl_tg_initialize-Outcome m d idle =
    let e = record d { enabled = d.enabled + 1 } in
    let s : Enabled false d e = record {
      board = refl;
      enabled = refl;
      region = idle.region;
      handler = idle.handler;
      msi = idle.msi;
      flag = idle.flag;
      unheld = refl;
    } in
    elim (Bool-cases (m.enable ==ℤ pos 0)) [
      | inr off ↦ rw off (
          failed m d d m.enable off (record {
            board = refl;
            enabled = λ t. refl;
            region = idle.region;
            handler = idle.handler;
            flag = idle.msi ∙ sym idle.flag;
            msi = λ on. ground (arith, idle.msi, on);
            unheld = refl;
          }))
      | inl on ↦ elim (Bool-cases (m.io_resource && not (ltb m.io_len tg_max_port))) [
        | inr wrong ↦ rw (on, wrong) (failed m d (err_out e) (neg enodev) refl (refuse m d e s))
        | inl right ↦ rw (on, right) (init_board-Outcome m d e s)
      ]
    ]

-- When the setting up of an idle device of the board TOOLGATE fails, the device is enabled as often as
-- before, its region and its interrupt are free, nothing was given up that was not held, and MSI is on
-- only if pci_enable_msi succeeded and request_irq failed.
pub prl_tg_initialize-refused :
    (m : Machine) (d : TgDev)
    → Idle d
    → is_toolgate d.board ≡ true
    → (prl_tg_initialize m d).0 ==ℤ pos 0 ≡ false
    → let e = (prl_tg_initialize m d).1 in
      (e.enabled ≡ d.enabled)
      × (e.region ≡ false)
      × (e.handler ≡ false)
      × (e.unheld ≡ d.unheld)
      × (e.msi && not ((m.msi ==ℤ pos 0) && not (m.request_irq ==ℤ pos 0)) ≡ false)
prl_tg_initialize-refused m d idle plain rc =
    let r = (prl_tg_initialize-Outcome m d idle).1 rc in
    (r.enabled plain, r.region, r.handler, r.unheld, ground (arith, r.msi))

pub prl_tg_initialize-Working :
    (m : Machine) (d : TgDev)
    → Idle d
    → (prl_tg_initialize m d).0 ==ℤ pos 0 ≡ true
    → Working d (prl_tg_initialize m d).1
prl_tg_initialize-Working m d idle rc = (prl_tg_initialize-Outcome m d idle).0 rc

pub prl_tg_initialize-Refused :
    (m : Machine) (d : TgDev)
    → Idle d
    → (prl_tg_initialize m d).0 ==ℤ pos 0 ≡ false
    → Refused m d (prl_tg_initialize m d).1
prl_tg_initialize-Refused m d idle rc = (prl_tg_initialize-Outcome m d idle).1 rc
