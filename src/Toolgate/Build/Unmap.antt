-- ===== src/Toolgate/Build/Unmap.antt =====
-- What is taken back from the device: mappings and references to pages.
use prl_tools.Base.{
  ◌∙◌, ℕ, zero, suc, ◌+◌, ◌-◌, ◌≤◌, ◌<◌, ◌≡◌, refl, List, [], ◌∷◌, ◌==◌, if◌then◌else◌, count,
  delete, count-delete_self, count-delete_ne, arith,
}
use prl_tools.Toolgate.Wire.{TgBuffer, span_pages}
use prl_tools.Toolgate.Build.{
  Uple, Build, page_cache_release, pci_unmap_page, release_pages, unmap_words,
}

-- How often a bus address stands in the `n` words from `i` on.
abbrev pub in_words : ℕ → (ℕ → ℕ) → ℕ → ℕ → ℕ
in_words x w i zero = 0
in_words x w i (suc n) = (if w i == x then 1 else 0) + in_words x w (i + 1) n

-- From `b` to `c` the mappings of `owed` went, and nothing else changed.
pub record Unmaps (owed : ℕ → ℕ) (b c : Build) : Type 0 where
  pub less : (x : ℕ) → count x c.mapped + owed x ≡ count x b.mapped
  pub fault : c.fault ≡ b.fault
  pub words : c.words ≡ b.words
  pub pinned : c.pinned ≡ b.pinned
  pub up_list : c.up_list ≡ b.up_list

-- The same for references to pages.
pub record Releases (owed : ℕ → ℕ) (b c : Build) : Type 0 where
  pub less : (x : ℕ) → count x c.pinned + owed x ≡ count x b.pinned
  pub fault : c.fault ≡ b.fault
  pub words : c.words ≡ b.words
  pub mapped : c.mapped ≡ b.mapped

pub count-delete :
    (i j : ℕ) (xs : List ℕ)
    → count j (delete i xs) ≡ (if j == i then count j xs - 1 else count j xs)
count-delete i j xs = ground (arith, count-delete_self i xs, count-delete_ne i j xs)

pub pci_unmap_page-Unmaps :
    (a : ℕ) (b : Build)
    → 0 < count a b.mapped
    → Unmaps (λ x. if x == a then 1 else 0) b (pci_unmap_page a b)
unfolding pci_unmap_page
pci_unmap_page-Unmaps a b live = record {
  less = λ x. ground (arith, count-delete a x b.mapped);
  fault = ground arith;
  words = refl;
  pinned = refl;
  up_list = refl;
}

pub page_cache_release-Releases :
    (p : ℕ) (b : Build)
    → 0 < count p b.pinned
    → Releases (λ x. if x == p then 1 else 0) b (page_cache_release p b)
unfolding page_cache_release
page_cache_release-Releases p b live = record {
  less = λ x. ground (arith, count-delete p x b.pinned);
  fault = ground arith;
  words = refl;
  mapped = refl;
}

pub page_cache_release-up_list : (p : ℕ) (b : Build) → (page_cache_release p b).up_list ≡ b.up_list
unfolding page_cache_release
page_cache_release-up_list p b = refl

pub unmap_words-Unmaps :
    (n i : ℕ) (b : Build)
    → ((x : ℕ) → in_words x b.words i n ≤ count x b.mapped)
    → Unmaps (λ x. in_words x b.words i n) b (unmap_words n i b)
unfolding unmap_words pci_unmap_page
unmap_words-Unmaps zero i b owed = record {
  less = λ x. omega arith;
  fault = refl;
  words = refl;
  pinned = refl;
  up_list = refl;
}
unmap_words-Unmaps (suc n) i b owed =
    let u = pci_unmap_page-Unmaps (b.words i) b (ground (arith, owed (b.words i))) in
    let r =
      unmap_words-Unmaps n (i + 1) (pci_unmap_page (b.words i) b)
        (λ x. ground (arith, owed x, u.less x)) in
    record {
      less = λ x. ground (arith, r.less x, u.less x);
      fault = r.fault ∙ u.fault;
      words = r.words;
      pinned = r.pinned;
      up_list = r.up_list;
    }

pub release_pages-Releases :
    (ps : List ℕ) (b : Build)
    → ((x : ℕ) → count x ps ≤ count x b.pinned)
    → Releases (λ x. count x ps) b (release_pages ps b)
unfolding release_pages page_cache_release
release_pages-Releases [] b owed = record {
  less = λ x. omega arith;
  fault = refl;
  words = refl;
  mapped = refl;
}
release_pages-Releases (p ∷ ps) b owed =
    let u = page_cache_release-Releases p b (ground (arith, owed p)) in
    let r =
      release_pages-Releases ps (page_cache_release p b) (λ x. ground (arith, owed x, u.less x)) in
    record {
      less = λ x. ground (arith, r.less x, u.less x);
      fault = r.fault ∙ u.fault;
      words = r.words;
      mapped = r.mapped;
    }

-- The words that the device got for the buffers from the place `i` on.
abbrev pub in_buffers : ℕ → (ℕ → ℕ) → ℕ → List TgBuffer → ℕ
in_buffers x w i [] = 0
in_buffers x w i (s ∷ ss) =
    let npages = span_pages s.va s.byte_count in
    if s.byte_count == 0
    then in_buffers x w (i + 2) ss
    else in_words x w (i + 2) npages + in_buffers x w (i + 2 + npages) ss

abbrev pub pages_of : List Uple → ℕ → ℕ
pages_of [] x = 0
pages_of (u ∷ us) x = count x u.pages + pages_of us x
