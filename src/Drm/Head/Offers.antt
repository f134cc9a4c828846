-- ===== src/Drm/Head/Offers.antt =====
-- The modes that a head offers.
use prl_tools.Base.{
  ℕ, suc, ◌≡◌, refl, Bool, true, false, not, ◌&&◌, ◌||◌, List, [], ◌∷◌, Option, none, some, arith,
  length, length-append, leb, ltb, ◌==◌, Bool-cases, inl, inr, ◌⊎◌, All,
}
use prl_tools.Drm.Head.{
  Mode, Head, DisplayMode, remove_preferred, add_default, add_defaults, add_preferred, add_boot,
  prl_kms_connector_mode_add, prl_kms_connector_fill_modes, default_modes,
}

-- A preferred mode is the current one.
abbrev pub IsCurrent : Mode → DisplayMode → Type 0
IsCurrent cur m = (m.preferred ≡ false) ⊎ ((m.hdisplay ≡ cur.width) × (m.vdisplay ≡ cur.height))

remove_preferred-IsCurrent :
    (cur : Mode) (ms : List DisplayMode) → All (IsCurrent cur) (remove_preferred cur ms)
unfolding remove_preferred
remove_preferred-IsCurrent cur [] = tt
remove_preferred-IsCurrent cur (m ∷ ms) =
    elim (Bool-cases
      (m.preferred && (not (m.hdisplay == cur.width) || not (m.vdisplay == cur.height)))) [
        | inl stale ↦ rw stale (remove_preferred-IsCurrent cur ms)
        | inr kept ↦ rw kept (
          elim (Bool-cases m.preferred) [
            | inr plain ↦ inl plain
            | inl preferred ↦ inr (ground (arith, kept, preferred), ground (arith, kept, preferred))
          ],
          remove_preferred-IsCurrent cur ms,
        )
      ]

module _ (room : DisplayMode → Bool) (memory : (m : DisplayMode) → room m ≡ true)
    (max_width max_height : ℕ) where
  mode_add-length :
      (width height : ℕ) (preferred : Bool) (probed : List DisplayMode)
      → length (prl_kms_connector_mode_add room width height preferred probed) ≡ suc (length probed)
  mode_add-length width height preferred probed =
      rw (memory (record { hdisplay = width; vdisplay = height; preferred = preferred }))
        (omega (arith, length-append probed (_ ∷ [])))

  add_default-length :
      (d : ℕ × ℕ) (r : ℕ × List DisplayMode)
      → r.0 ≡ length r.1
      → let s = add_default room max_width max_height d r in s.0 ≡ length s.1
  add_default-length d r counted = elim (Bool-cases (leb d.0 max_width && leb d.1 max_height)) [
    | inl fits ↦ rw fits (omega (arith, counted, mode_add-length d.0 d.1 false r.1))
    | inr large ↦ rw large counted
  ]

  add_defaults-length :
      (ds : List (ℕ × ℕ)) (r : ℕ × List DisplayMode)
      → r.0 ≡ length r.1
      → let s = add_defaults room max_width max_height ds r in s.0 ≡ length s.1
  unfolding add_defaults
  add_defaults-length [] r counted = counted
  add_defaults-length (d ∷ ds) r counted =
      add_defaults-length ds (add_default room max_width max_height d r)
        (add_default-length d r counted)

  add_preferred-length :
      (head : Head) → let s = add_preferred room max_width max_height head [] in s.0 ≡ length s.1
  add_preferred-length head =
      elim (Bool-cases (
        ltb 0 head.pref_width
        && ltb head.pref_width max_width
        && not (head.pref_height == 0)
        && leb head.pref_height max_height)) [
          | inl fits ↦
              rw fits (omega (arith, mode_add-length head.pref_width head.pref_height true []))
          | inr not_fits ↦ rw not_fits refl
        ]

  add_boot-length :
      (boot : Option (ℕ × ℕ)) (r : ℕ × List DisplayMode)
      → r.0 ≡ length r.1
      → let s = add_boot room boot r in s.0 ≡ length s.1
  unfolding add_boot
  add_boot-length none r counted = counted
  add_boot-length (some b) r counted =
      omega (arith, counted, mode_add-length b.0 b.1 (r.0 == 0) r.1)

  -- The count that prl_kms_connector_fill_modes returns is the number of modes that it has added, if
  -- memory is there, and of the old modes only the current one may still be preferred.
  pub fill_modes-counted :
      (boot : Option (ℕ × ℕ)) (head : Head) (modes : List DisplayMode)
      → let r = prl_kms_connector_fill_modes room boot max_width max_height head modes in
        (r.0 ≡ length r.1.1) × All (IsCurrent head.mode_cur) r.1.0
  unfolding prl_kms_connector_fill_modes
  fill_modes-counted boot head modes = (
    add_defaults-length default_modes _ (add_boot-length boot _ (add_preferred-length head)),
    remove_preferred-IsCurrent head.mode_cur modes,
  )
