-- ===== src/Drm/Image/Private.antt =====
-- One process that uses images gives its references back.
use prl_tools.Base.{
  ℕ, ◌≡◌, refl, true, false, List, [], ◌∷◌, Option, none, some, arith, ◌==◌, Bool-cases,
  Option-cases, inl, inr, All, pos, ◌==ℤ◌, ◌||◌, count, ℤ,
}
use prl_tools.Drm.Image.{
  ImageDesc, Image, ImageKernel, GemLog, prl_drm_create_image, prl_drm_create_pbuffer,
}
use prl_tools.Drm.Image.Change.{visit}
use prl_tools.Drm.Image.Ioctl.{
  Search, search_images, visited_ret, add_image, finish_create, prl_drm_image_create_ioctl,
}
use prl_tools.Drm.Image.Release.{
  release_image, release_loop, prl_drm_image_release_ioctl, close_image, close_images,
}
use prl_tools.Drm.Image.History.{ImageCall, create, release, close, image_call, image_calls}
use prl_tools.Drm.Image.References.{
  holds, all_holds, Moves, IsSole, find_owner-sole, put-Moves, create_pbuffer-Moves,
  visit-VisitMoves,
}

-- The images are of the file alone, and the references balance.
abbrev Ends : ℕ → ℕ → GemLog → ℕ → List Image → GemLog → Type 0
Ends g file l n imgs m = All (IsSole file) imgs × Moves g l n m (all_holds g imgs)

-- The process that makes the call.
abbrev pub IsBy : ℕ → ImageCall → Type 0
IsBy file (create k f desc) = f ≡ file
IsBy file (release f pbuffer) = f ≡ file
IsBy file (close f) = f ≡ file

-- A new image, if there is one.
abbrev held_by : ℕ → Option Image → ℕ
held_by g none = 0
held_by g (some img) = holds g img.prl_go

abbrev SoleIfSome : ℕ → Option Image → Type 0
SoleIfSome file none = Unit
SoleIfSome file (some img) = IsSole file img

module _ (k : ImageKernel) (g file : ℕ) where
  create_image-Moves :
      (desc : ImageDesc) (l : GemLog)
      → let c = prl_drm_create_image k file desc l in
        SoleIfSome file c.0 × Moves g l 0 c.1 (held_by g c.0)
  unfolding prl_drm_create_image prl_drm_create_pbuffer
  create_image-Moves desc l =
      let p = prl_drm_create_pbuffer k false desc.pformat l in
      let moved : Moves g l 0 p.1 0 = create_pbuffer-Moves k g file false desc.pformat l 0 in
      elim (Bool-cases k.kzalloc) [
        | inr no_room ↦ rw no_room (tt, omega arith)
        | inl room ↦ elim (Bool-cases (p.0 == 0)) [
          | inl no_buffer ↦ rw (room, no_buffer) (tt, moved)
          | inr some_buffer ↦ elim (Bool-cases (desc.handle == 0)) [
            | inl unbound ↦ rw (room, some_buffer, unbound) ((refl, refl), moved)
            | inr bound ↦ elim (Option-cases (k.drm_gem_object_lookup file desc.handle)) [
              | inl missing ↦ rw (room, some_buffer, bound, missing) (tt, moved)
              | inr (h, there) ↦
                  rw (room, some_buffer, bound, there) ((refl, refl), omega (arith, moved))
            ]
          ]
        ]
      ]

  search_images-Ends :
      (ret : ℤ) (desc : ImageDesc) (imgs : List Image) (l : GemLog)
      → All (IsSole file) imgs
      → let s = search_images k file ret desc imgs l in
        Ends g file l (all_holds g imgs) s.imgs s.log
  unfolding search_images
  search_images-Ends ret desc [] l sole = (tt, omega arith)
  search_images-Ends ret desc (img ∷ imgs) l sole =
      let v = visit k file desc img l in
      let now = visit-VisitMoves k g file desc img l sole.0 in
      let rest = search_images-Ends (visited_ret v ret) v.desc imgs v.log sole.1 in
      elim (Bool-cases v.stop) [
        | inl stops ↦ rw stops ((now.0, sole.1), omega (arith, now.1))
        | inr goes_on ↦ rw goes_on ((now.0, rest.0), omega (arith, now.1, rest.1))
      ]

  add_image-Ends :
      (s : Search) (m : GemLog) (made : Option Image)
      → All (IsSole file) s.imgs
      → SoleIfSome file made
      → Moves g s.log 0 m (held_by g made)
      → let c = add_image s m made in Ends g file s.log (all_holds g s.imgs) c.imgs c.log
  unfolding add_image
  add_image-Ends s m none sole new moved = (sole, omega (arith, moved))
  add_image-Ends s m (some img) sole new moved = ((new, sole), omega (arith, moved))

  finish_create-Ends :
      (s : Search) (found : Option ImageDesc)
      → All (IsSole file) s.imgs
      → let c = finish_create k file s found in Ends g file s.log (all_holds g s.imgs) c.imgs c.log
  unfolding finish_create
  finish_create-Ends s (some d) sole = (sole, omega arith)
  finish_create-Ends s none sole =
      let c = prl_drm_create_image k file s.desc s.log in
      let made = create_image-Moves s.desc s.log in
      elim (Bool-cases (s.ret ==ℤ pos 0)) [
        | inr failed ↦ rw failed (sole, omega arith)
        | inl fine ↦ rw fine (add_image-Ends s c.1 c.0 sole made.0 made.1)
      ]

  create_ioctl-Ends :
      (desc : ImageDesc) (imgs : List Image) (l : GemLog)
      → All (IsSole file) imgs
      → let c = prl_drm_image_create_ioctl k file desc imgs l in
        Ends g file l (all_holds g imgs) c.imgs c.log
  unfolding prl_drm_image_create_ioctl
  create_ioctl-Ends desc imgs l sole = elim (Bool-cases ((desc.width == 0) || (desc.height == 0))) [
    | inl empty ↦ rw empty (sole, omega arith)
    | inr drawable ↦
        let s = search_images k file (pos 0) desc imgs l in
        let searched = search_images-Ends (pos 0) desc imgs l sole in
        let done = finish_create-Ends s s.found searched.0 in
        rw drawable (done.0, omega (arith, searched.1, done.1))
  ]

module _ (k : ImageKernel) (g file : ℕ) where
  release_image-gone :
      (idx : ℕ) (img : Image) (l : GemLog)
      → IsSole file img
      → let r = release_image idx img l in (r.0 ≡ none) × Moves g l (holds g img.prl_go) r.1 0
  unfolding release_image
  release_image-gone idx img l sole =
      let alone : (img.num_owners == 1) ≡ true = ground (arith, sole.1) in
      rw alone (refl, put-Moves k g file l img.prl_go)

  release_loop-Ends :
      (pbuffer : ℕ) (imgs : List Image) (l : GemLog)
      → All (IsSole file) imgs
      → let r = release_loop file pbuffer imgs l in Ends g file l (all_holds g imgs) r.imgs r.log
  unfolding release_loop
  release_loop-Ends pbuffer [] l sole = (tt, omega arith)
  release_loop-Ends pbuffer (img ∷ imgs) l sole =
      let gone = release_image-gone 0 img l sole.0 in
      let rest = release_loop-Ends pbuffer imgs l sole.1 in
      elim (Bool-cases (img.desc.pbuffer == pbuffer)) [
        | inr other ↦ rw other ((sole.0, rest.0), omega (arith, rest.1))
        | inl it ↦ rw (it, find_owner-sole file img sole.0, gone.0) (sole.1, omega (arith, gone.1))
      ]

  release_ioctl-Ends :
      (pbuffer : ℕ) (imgs : List Image) (l : GemLog)
      → All (IsSole file) imgs
      → let r = prl_drm_image_release_ioctl file pbuffer imgs l in
        Ends g file l (all_holds g imgs) r.imgs r.log
  unfolding prl_drm_image_release_ioctl
  release_ioctl-Ends pbuffer imgs l sole = elim (Bool-cases (pbuffer == 0)) [
    | inl nothing ↦ rw nothing (sole, omega arith)
    | inr named ↦ rw named (release_loop-Ends pbuffer imgs l sole)
  ]

  close_images-gone :
      (imgs : List Image) (l : GemLog)
      → All (IsSole file) imgs
      → let r = close_images file imgs l in (r.0 ≡ []) × Moves g l (all_holds g imgs) r.1 0
  unfolding close_images close_image
  close_images-gone [] l sole = (refl, omega arith)
  close_images-gone (img ∷ imgs) l sole =
      let gone = release_image-gone 0 img l sole.0 in
      let rest = close_images-gone imgs (release_image 0 img l).1 sole.1 in
      rw (find_owner-sole file img sole.0, gone.0) (rest.0, omega (arith, gone.1, rest.1))

  image_call-Ends :
      (c : ImageCall) (imgs : List Image) (l : GemLog)
      → IsBy file c
      → All (IsSole file) imgs
      → let r = image_call c imgs l in Ends g file l (all_holds g imgs) r.0 r.1
  unfolding image_call
  image_call-Ends (create kernel f desc) imgs l ours sole =
      rw ours (create_ioctl-Ends kernel g file desc imgs l sole)
  image_call-Ends (release f pbuffer) imgs l ours sole =
      rw ours (release_ioctl-Ends pbuffer imgs l sole)
  image_call-Ends (close f) imgs l ours sole =
      let gone = close_images-gone imgs l sole in rw (ours, gone.0) (tt, gone.1)

  image_calls-Ends :
      (cs : List ImageCall) (imgs : List Image) (l : GemLog)
      → All (IsBy file) cs
      → All (IsSole file) imgs
      → let r = image_calls cs imgs l in Ends g file l (all_holds g imgs) r.0 r.1
  unfolding image_calls
  image_calls-Ends [] imgs l ours sole = (sole, omega arith)
  image_calls-Ends (c ∷ cs) imgs l ours sole =
      let r = image_call c imgs l in
      let now = image_call-Ends c imgs l ours.0 sole in
      let rest = image_calls-Ends cs r.0 r.1 ours.1 now.0 in (rest.0, omega (arith, now.1, rest.1))

abbrev pub no_log : GemLog
no_log = record { gets = []; puts = []; sent = [] }

-- If all calls on images are of one file, whatever the kernel and the host make of them, then closing
-- the file leaves no image, and each gem object has been put as often as it was looked up.
pub image_calls_put_back :
    (k : ImageKernel) (file : ℕ) (cs : List ImageCall)
    → All (IsBy file) cs
    → let r = image_calls cs [] no_log in
      let c = close_images file r.0 r.1 in
      (c.0 ≡ []) × ((g : ℕ) → count g c.1.gets ≡ count g c.1.puts)
image_calls_put_back k file cs ours =
    let r = image_calls cs [] no_log in
    (
      (close_images-gone k 0 file r.0 r.1 (image_calls-Ends k 0 file cs [] no_log ours tt).0).0,
      λ g.
          let ran = image_calls-Ends k g file cs [] no_log ours tt in
          omega (arith, ran.1, (close_images-gone k g file r.0 r.1 ran.0).1),
    )
