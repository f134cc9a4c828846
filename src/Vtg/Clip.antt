-- ===== src/Vtg/Clip.antt =====
-- The invariant through a new clip buffer.
use prl_tools.Base.{
  ℕ, ◌<◌, ◌≡◌, refl, Bool, true, false, Option, none, some, ◌==◌, arith, Option-cases, Bool-cases,
  inl, inr,
}
use prl_tools.Vtg.{
  Entry, Vtg, vtg_hash_size, find_entry, set_entry, bucket, set_bucket, DrawBdesc,
  prl_vtg_clip_drawable, clip_entry, set_buffer,
}
use prl_tools.Vtg.Refs.{points, Counted}
use prl_tools.Vtg.Entries.{find_entry-id}
use prl_tools.Vtg.Invariant.{Inv, put-Inv, set_entry-Listed, total_refs-set_entry}

module _ (hash : ℕ → ℕ) (hash_small : (id : ℕ) → hash id < vtg_hash_size) where
  -- The new entry of the table points to the new buffer, the old buffer loses a reference.
  clip-Counted :
      (fp vb pbuf : ℕ) (hdr : DrawBdesc) (s : Vtg) (p : Entry) (b : ℕ)
      → find_entry hdr.id (bucket hash s hdr.id) ≡ some p
      → s.buffers vb ≡ none
      → Counted s 0 b
      → Counted
          (set_buffer
            (set_bucket hash s hdr.id
              (set_entry (record p { buffer = some vb; used = 0 }) (bucket hash s hdr.id)))
            vb
            (some (record { refcnt = 1; id = hdr.id; pbuf = pbuf; bsize = hdr.bsize })))
          (points p.buffer b)
          b
  clip-Counted fp vb pbuf hdr s p b found fresh v =
      let total =
        total_refs-set_entry hash hash_small hdr.id s b p (record p { buffer = some vb; used = 0 })
          found (find_entry-id hdr.id (bucket hash s hdr.id) p found) in
      elim (Bool-cases (b == vb)) [
        | inl same ↦ record {
          counts = ground (arith, v.counts, total);
          alive = λ r e. ground (arith);
        }
        | inr apart ↦ record {
          counts = ground (arith, v.counts, total);
          alive = λ r e. v.alive r (ground arith);
        }
      ]

  pub clip-Inv :
      (mem : Option (ℕ × ℕ)) (room copied : Bool) (fp : ℕ) (hdr : DrawBdesc) (s : Vtg)
      → ((vb pbuf : ℕ) → mem ≡ some (vb, pbuf) → s.buffers vb ≡ none)
      → Inv hash s
      → Inv hash (prl_vtg_clip_drawable hash mem room copied fp hdr s).2
  unfolding prl_vtg_clip_drawable clip_entry
  clip-Inv none room copied fp hdr s fresh v = v
  clip-Inv (some m) false copied fp hdr s fresh v = v
  clip-Inv (some m) true false fp hdr s fresh v = v
  clip-Inv (some (vb, pbuf)) true true fp hdr s fresh v =
      elim (Option-cases (find_entry hdr.id (bucket hash s hdr.id))) [
        | inl absent ↦ rw (absent, prl_vtg_clip_drawable) v
        | inr (p, found) ↦ elim (Bool-cases (p.filp == fp)) [
          | inr other ↦ rw (found, other, prl_vtg_clip_drawable) v
          | inl mine ↦
              rw (found, mine, prl_vtg_clip_drawable)
                (put-Inv hash p.buffer _
                  (λ b. clip-Counted fp vb pbuf hdr s p b found (fresh vb pbuf refl) (v.counted b))
                  (λ j.
                    let l =
                      set_entry-Listed hash hdr.id s p (record p { buffer = some vb; used = 0 }) j
                        found (find_entry-id hdr.id (bucket hash s hdr.id) p found) refl
                        (v.listed j) in
                    record { unique = l.unique; lists = l.lists; added = l.added })
                  v.no_fault)
        ]
      ]
