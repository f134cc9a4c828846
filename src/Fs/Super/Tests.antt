-- ===== src/Fs/Super/Tests.antt =====
-- Runs of Fs/Super.
use prl_tools.Base.{◌≡◌, refl, true, false, pos, neg}
use prl_tools.Fs.Super.{Answers, Sb, prlfs_remount, fill_root, d_make_root, get_sf_id}

abbrev answers : Answers
answers = record {
  kmalloc = true;
  req_alloc = true;
  features = pos 0;
  feature_flags = 1;
  id = pos 0;
  index = pos 3;
  bdi = pos 0;
  iget = true;
  make_root = true;
}

abbrev empty : Sb
empty = record { info = true; bdi = false; inode_refs = 0; root = false; fault = false }

folder : get_sf_id answers ≡ pos 3
unfolding get_sf_id
folder = refl

filled : ((fill_root answers empty).0 ≡ pos 0) × ((fill_root answers empty).1.root ≡ true)
unfolding fill_root d_make_root
filled = (refl, refl)

no_inode : (fill_root (record answers { iget = false }) empty).1.bdi ≡ false
unfolding fill_root
no_inode = refl

read_only_stays : prlfs_remount true 0 ≡ (neg 22, 16)
unfolding prlfs_remount
read_only_stays = refl
