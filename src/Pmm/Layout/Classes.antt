-- ===== src/Pmm/Layout/Classes.antt =====
-- The ten sizes for which `init_page` fills the bitmap, and their place in a page.
use projects_demonstration.Base.{
  ℕ, ◌-◌, ◌*◌, ◌≤◌, ◌<◌, ◌≡◌, refl, sym, ap, ◌∙◌, arith, if◌then◌else◌, ◌==◌,
}
use projects_demonstration.Pmm.Layout.{
  Arch, bits32, bits64, width, num_bitmap, common_map, avail_sz,
}

pub data Class : Type 0 where
  c8 c16 c32 c64 c128 c256 c512 c1024 c2048 c4096 : Class

abbrev pub bytes : Class → ℕ
bytes c8 = 8
bytes c16 = 16
bytes c32 = 32
bytes c64 = 64
bytes c128 = 128
bytes c256 = 256
bytes c512 = 512
bytes c1024 = 1024
bytes c2048 = 2048
bytes c4096 = 4096

-- The words of the bitmap that the class uses.
abbrev pub words : Arch → Class → ℕ
words a c = num_bitmap a (bytes c)

-- The low bits of the first word that stand for no block.
abbrev pub skip : Arch → Class → ℕ
skip bits64 c4096 = 48
skip bits64 c2048 = 32
skip bits32 c4096 = 16
skip a c = 0

-- How the blocks of a class fill the page: the words fit the array, only a class of one word
-- skips bits, and the blocks take the whole data area.
pub record Fits (a : Arch) (c : Class) : Type 0 where
  pub nonempty : 0 < words a c
  pub within : words a c ≤ common_map a
  pub skips : skip a c < width a
  pub one_word : 0 < skip a c → words a c ≡ 1
  pub filled : (words a c * width a - skip a c) * bytes c ≡ avail_sz

pub class-Fits : (a : Arch) (c : Class) → Fits a c
class-Fits bits32 c8 = omega arith
class-Fits bits32 c16 = omega arith
class-Fits bits32 c32 = omega arith
class-Fits bits32 c64 = omega arith
class-Fits bits32 c128 = omega arith
class-Fits bits32 c256 = omega arith
class-Fits bits32 c512 = omega arith
class-Fits bits32 c1024 = omega arith
class-Fits bits32 c2048 = omega arith
class-Fits bits32 c4096 = omega arith
class-Fits bits64 c8 = omega arith
class-Fits bits64 c16 = omega arith
class-Fits bits64 c32 = omega arith
class-Fits bits64 c64 = omega arith
class-Fits bits64 c128 = omega arith
class-Fits bits64 c256 = omega arith
class-Fits bits64 c512 = omega arith
class-Fits bits64 c1024 = omega arith
class-Fits bits64 c2048 = omega arith
class-Fits bits64 c4096 = omega arith

of_bytes : ℕ → Class
of_bytes n =
    if n == 8
    then c8
    else if n == 16
    then c16
    else if n == 32
    then c32
    else if n == 64
    then c64
    else if n == 128
    then c128
    else if n == 256
    then c256
    else if n == 512
    then c512
    else if n == 1024
    then c1024
    else if n == 2048
    then c2048
    else c4096

of_bytes-bytes : (c : Class) → of_bytes (bytes c) ≡ c
unfolding of_bytes
of_bytes-bytes c8 = refl
of_bytes-bytes _ = refl

pub bytes-injective : (c d : Class) → bytes c ≡ bytes d → c ≡ d
bytes-injective c d e = sym (of_bytes-bytes c) ∙ ap of_bytes e ∙ of_bytes-bytes d

pub bytes_pos : (c : Class) → 0 < bytes c
bytes_pos c8 = omega arith
bytes_pos _ = omega arith
