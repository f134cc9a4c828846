-- ===== src/Fs/Flags.antt =====
-- kmods-src/prl_fs/SharedFolders/Interfaces/sf_lin.h: the open flags of the guest and of the host's
-- protocol. The guest's are those of Linux on x86_64.
use prl_tools.Base.{ℕ, ◌^◌, List, [], ◌∷◌, ◌==◌, if◌then◌else◌}
use Prim.Native.Nat.{bit_and, bit_or}

-- `struct prlfs_file_desc`, what the host sees.
pub record FileDesc : Type 0 where
  pub fd : ℕ
  pub offset : ℕ
  pub flags : ℕ
  pub sfid : ℕ

-- `struct prlfs_file_info`.
pub record FileInfo : Type 0 where
  pub fd : ℕ
  pub offset : ℕ
  pub flags : ℕ
  pub sfid : ℕ

abbrev pub o_accmode : ℕ
o_accmode = 3

abbrev pub o_wronly : ℕ
o_wronly = 1

abbrev pub o_rdwr : ℕ
o_rdwr = 2

abbrev pub o_append : ℕ
o_append = 0x400

-- The bit of `enum prlfs_file_flags` and the guest's flag, in the order of the conversions.
unfoldable pub open_flags : List (ℕ × ℕ)
open_flags =
    (0, 0)
    ∷ (1, 1)
    ∷ (2, 2)
    ∷ (3, 0x40)
    ∷ (4, 0x80)
    ∷ (5, 0x100)
    ∷ (6, 0x200)
    ∷ (7, 0x400)
    ∷ (8, 0x800)
    ∷ (9, 0x10_1000)
    ∷ (10, 0x2000)
    ∷ (11, 0x4000)
    ∷ (12, 0x8000)
    ∷ (13, 0x1_0000)
    ∷ (14, 0x2_0000)
    ∷ (15, 0x4_0000)
    ∷ (16, 0x8_0000)
    ∷ (17, 0x800)
    ∷ []

-- The `_TO_HOST_` macros, one after the other.
pub guest_flags : ℕ → List (ℕ × ℕ) → ℕ → ℕ
guest_flags dfl [] hfl = hfl
guest_flags dfl ((bit, flag) ∷ rows) hfl =
    guest_flags dfl rows (bit_or hfl (if bit_and (2 ^ bit) dfl == 0 then 0 else flag))

-- The `_FROM_HOST_` macros.
pub host_flags : ℕ → List (ℕ × ℕ) → ℕ → ℕ
host_flags hfl [] dfl = dfl
host_flags hfl ((bit, flag) ∷ rows) dfl =
    host_flags hfl rows (bit_or dfl (if bit_and hfl flag == 0 then 0 else 2 ^ bit))

pub prlfs_file_desc_to_info : FileDesc → FileInfo
prlfs_file_desc_to_info src = record {
  fd = src.fd;
  offset = src.offset;
  flags = guest_flags src.flags open_flags 0;
  sfid = src.sfid;
}

pub prlfs_file_info_to_desc : FileInfo → FileDesc
prlfs_file_info_to_desc src = record {
  fd = src.fd;
  offset = src.offset;
  flags = host_flags src.flags open_flags 0;
  sfid = src.sfid;
}
