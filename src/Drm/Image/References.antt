-- ===== src/Drm/Image/References.antt =====
-- The references to gem objects while one process uses images.
use prl_tools.Base.{
  ℕ, ◌+◌, ◌≡◌, refl, ap, Bool, true, List, [], ◌∷◌, Option, none, some, arith, ◌==◌, ==_refl,
  if◌then◌else◌, Bool-cases, Option-cases, inl, inr, ◌&&◌, count,
}
use prl_tools.Drm.Image.{
  ImageDesc, Image, ImageKernel, GemLog, prl_drm_create_pbuffer, first_owner,
  prl_drm_image_find_owner, put_object, gl_request,
}
use prl_tools.Drm.Image.Change.{
  Visit, change_exclusive, rebind, recreate, same_size, same_format, visit,
}

-- The references of images to an object.
abbrev pub holds : ℕ → Option ℕ → ℕ
holds g none = 0
holds g (some a) = if a == g then 1 else 0

abbrev pub all_holds : ℕ → List Image → ℕ
all_holds g [] = 0
all_holds g (img ∷ imgs) = holds g img.prl_go + all_holds g imgs

-- As many references are gained or lost between two logs as between two counts of the images.
abbrev pub Moves : ℕ → GemLog → ℕ → GemLog → ℕ → Type 0
Moves g l n m p = count g m.gets + count g l.puts + n ≡ count g m.puts + count g l.gets + p

-- The image has one owner.
abbrev pub IsSole : ℕ → Image → Type 0
IsSole file img = (img.owners ≡ first_owner file) × (img.num_owners ≡ 1)

pub find_owner-sole :
    (file : ℕ) (img : Image) → IsSole file img → prl_drm_image_find_owner (some file) img.owners ≡ 0
unfolding prl_drm_image_find_owner
find_owner-sole file img sole = rw (sole.0, ==_refl file) refl

abbrev pub VisitMoves : ℕ → ℕ → Image → GemLog → Visit → Type 0
VisitMoves g file img l v =
    IsSole file v.img × Moves g l (holds g img.prl_go) v.log (holds g v.img.prl_go)

module _ (k : ImageKernel) (g file : ℕ) where
  rebind-VisitMoves :
      (desc : ImageDesc) (img : Image) (l : GemLog) (go : Option ℕ)
      → IsSole file img
      → img.prl_go ≡ go
      → VisitMoves g file img l (rebind k file desc img l go)
  unfolding rebind
  rebind-VisitMoves desc img l none sole it =
      elim (Option-cases (k.drm_gem_object_lookup file desc.handle)) [
        | inl missing ↦ rw (missing, rebind) (sole, omega arith)
        | inr (h, there) ↦
            let before : holds g img.prl_go ≡ 0 = rw it refl in
            rw (there, rebind) (sole, omega (arith, before))
      ]
  rebind-VisitMoves desc img l (some h) sole it = elim (Bool-cases (desc.handle == 0)) [
    | inl none_more ↦
        let before : holds g img.prl_go ≡ holds g (some h) = ap (holds g) it in
        rw (none_more, rebind) (sole, omega (arith, before))
    | inr more ↦ rw (more, rebind) (sole, omega arith)
  ]

  pub put-Moves : (l : GemLog) (o : Option ℕ) → Moves g l (holds g o) (put_object o l) 0
  put-Moves l none = omega arith
  put-Moves l (some a) = omega arith

  pub create_pbuffer-Moves :
      (again : Bool) (format : List ℕ) (l : GemLog) (n : ℕ)
      → Moves g l n (prl_drm_create_pbuffer k again format l).1 n
  unfolding prl_drm_create_pbuffer
  create_pbuffer-Moves again format l n =
      elim (Option-cases (k.gl_create (gl_request again format))) [
        | inl failed ↦ rw (failed, prl_drm_create_pbuffer) (omega arith)
        | inr (handle, made) ↦ rw (made, prl_drm_create_pbuffer) (omega arith)
      ]

  change_exclusive-VisitMoves :
      (desc : ImageDesc) (img : Image) (l : GemLog)
      → IsSole file img
      → VisitMoves g file img l (change_exclusive k file desc img l)
  unfolding change_exclusive recreate
  change_exclusive-VisitMoves desc img l sole = elim (Bool-cases (desc.handle == img.desc.handle)) [
    | inr other ↦ rw other (rebind-VisitMoves desc img l img.prl_go sole refl)
    | inl it ↦ elim (Bool-cases (same_size desc img.desc)) [
      | inr resized ↦ rw (it, resized) (sole, put-Moves l img.prl_go)
      | inl sized ↦ elim (Bool-cases (same_format desc.pformat img.desc.pformat)) [
        | inl nothing ↦ rw (it, sized, nothing) (sole, omega arith)
        | inr formatted ↦
            let p = create_pbuffer-Moves true desc.pformat l (holds g img.prl_go) in
            elim (Bool-cases
              ((prl_drm_create_pbuffer k true desc.pformat l).0 == img.desc.pbuffer)) [
                | inl same ↦ rw (it, sized, formatted, same) (sole, p)
                | inr different ↦ rw (it, sized, formatted, different) (sole, p)
              ]
      ]
    ]
  ]

  pub visit-VisitMoves :
      (desc : ImageDesc) (img : Image) (l : GemLog)
      → IsSole file img
      → VisitMoves g file img l (visit k file desc img l)
  unfolding visit
  visit-VisitMoves desc img l sole =
      let mine = find_owner-sole file img sole in
      elim (Bool-cases (desc.pbuffer == img.desc.pbuffer)) [
        | inl it ↦
            let alone : (img.num_owners == 1) ≡ true = ground (arith, sole.1) in
            rw (it, mine, alone) (change_exclusive-VisitMoves desc img l sole)
        | inr other ↦
            elim (Bool-cases (
              (desc.pbuffer == 0) && (desc.handle == img.desc.handle) && same_size desc img.desc)) [
                | inl equal ↦ rw (other, equal, mine) (sole, omega arith)
                | inr differs ↦ rw (other, differs) (sole, omega arith)
              ]
      ]
