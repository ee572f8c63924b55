-- ===== src/Str.antt =====
-- The functions of OSkernel/abstract-machine/libs/klib/src/string.c over a memory of bytes. NULL is
-- 0. A `char` is signed, so two bytes compare as numbers moved up by 128 that wrap at 256. The loops
-- that look for a NUL take fuel, and `none` says that it ran out.
pub mod Copy
pub mod Fill
pub mod Compare
pub mod Order
mod Tests
use projects_demonstration.Base.{
  ℕ, zero, suc, ◌+◌, ◌%◌, ◌||◌, ◌&&◌, not, true, false, Bool, Option, none, some, if◌then◌else◌,
  ◌==◌, ltb, update,
}

-- The results 0, 1 and -1 of a comparison.
pub data Answer : Type 0 where
  same greater less : Answer

abbrev pub char_lt : ℕ → ℕ → Bool
char_lt x y = ltb ((x + 128) % 256) ((y + 128) % 256)

abbrev pub is_null : ℕ → ℕ → Bool
is_null p q = p == 0 || q == 0

-- The loop of `strlen`.
unfoldable pub strlen_from : ℕ → (temp count_str : ℕ) → (ℕ → ℕ) → Option ℕ
strlen_from zero temp count_str mem = none
strlen_from (suc fuel) temp count_str mem =
    let rest = strlen_from fuel (temp + 1) (count_str + 1) mem in
    if mem temp == 0 then some count_str else rest

unfoldable pub strlen : ℕ → (s : ℕ) → (ℕ → ℕ) → Option ℕ
strlen fuel s mem = strlen_from fuel s 0 mem

-- The loop of `strcpy` and of `strcat`, with the NUL behind it.
unfoldable pub copy_from : ℕ → (dst src i : ℕ) → (ℕ → ℕ) → Option (ℕ → ℕ)
copy_from zero dst src i mem = none
copy_from (suc fuel) dst src i mem =
    let rest = copy_from fuel dst src (i + 1) (update mem (dst + i) (mem (src + i))) in
    if mem (src + i) == 0 then some (update mem (dst + i) 0) else rest

-- The pointer that is returned, and the memory.
abbrev pub returning : ℕ → Option (ℕ → ℕ) → Option (ℕ × (ℕ → ℕ))
returning p none = none
returning p (some mem) = some (p, mem)

unfoldable pub strcpy : ℕ → (dst src : ℕ) → (ℕ → ℕ) → Option (ℕ × (ℕ → ℕ))
strcpy fuel dst src mem =
    if is_null dst src then some (0, mem) else returning dst (copy_from fuel dst src 0 mem)

-- `strcat` with the length of `dst`.
abbrev pub append_at : ℕ → (dst src : ℕ) → (ℕ → ℕ) → Option ℕ → Option (ℕ × (ℕ → ℕ))
append_at fuel dst src mem none = none
append_at fuel dst src mem (some dest_len) =
    returning dst (copy_from fuel (dst + dest_len) src 0 mem)

unfoldable pub strcat : ℕ → (dst src : ℕ) → (ℕ → ℕ) → Option (ℕ × (ℕ → ℕ))
strcat fuel dst src mem =
    if is_null dst src then some (0, mem) else append_at fuel dst src mem (strlen fuel dst mem)

-- The loop of `memset`, from the last byte down.
unfoldable pub memset_from : ℕ → (temp c : ℕ) → (ℕ → ℕ) → ℕ → ℕ
memset_from zero temp c mem = mem
memset_from (suc n) temp c mem = memset_from n temp c (update mem (temp + n) (c % 256))

unfoldable pub memset : (v c n : ℕ) → (ℕ → ℕ) → ℕ × (ℕ → ℕ)
memset v c n mem = if v == 0 then (v, mem) else (v, memset_from n v c mem)

-- The loop of `memcpy`, from the last byte down.
unfoldable pub memcpy_from : ℕ → (out from : ℕ) → (ℕ → ℕ) → ℕ → ℕ
memcpy_from zero out from mem = mem
memcpy_from (suc n) out from mem = memcpy_from n out from (update mem (out + n) (mem (from + n)))

unfoldable pub memcpy : (out from n : ℕ) → (ℕ → ℕ) → ℕ × (ℕ → ℕ)
memcpy out from n mem = if is_null out from then (0, mem) else (out, memcpy_from n out from mem)

-- The loop of `memcmp`, with `left` rounds to go.
unfoldable pub memcmp_from : (left count s1 s2 : ℕ) → (ℕ → ℕ) → Answer
memcmp_from zero count s1 s2 mem = same
memcmp_from (suc left) count s1 s2 mem =
    let rest = memcmp_from left (count + 1) s1 s2 mem in
    if char_lt (mem (s1 + count)) (mem (s2 + count))
    then less
    else if char_lt (mem (s2 + count)) (mem (s1 + count))
    then greater
    else rest

unfoldable pub memcmp : (s1 s2 n : ℕ) → (ℕ → ℕ) → Answer
memcmp s1 s2 n mem = if is_null s1 s2 then same else memcmp_from n 0 s1 s2 mem

-- The loop of `strncmp`, in the same way.
unfoldable pub strncmp_from : (left count s1 s2 : ℕ) → (ℕ → ℕ) → Answer
strncmp_from zero count s1 s2 mem = same
strncmp_from (suc left) count s1 s2 mem =
    let rest = strncmp_from left (count + 1) s1 s2 mem in
    if char_lt (mem (s2 + count)) (mem (s1 + count))
    then greater
    else if char_lt (mem (s1 + count)) (mem (s2 + count))
    then less
    else rest

unfoldable pub strncmp : (s1 s2 n : ℕ) → (ℕ → ℕ) → Answer
strncmp s1 s2 n mem = if is_null s1 s2 then same else strncmp_from n 0 s1 s2 mem

-- The loops of `strncpy`: the bytes before the NUL from byte `count` on, and then NULs, with `left`
-- rounds to go.
unfoldable pub pad_from : (left dst count : ℕ) → (ℕ → ℕ) → ℕ → ℕ
pad_from zero dst count mem = mem
pad_from (suc left) dst count mem = pad_from left dst (count + 1) (update mem (dst + count) 0)

unfoldable pub strncpy_from : (left dst src count : ℕ) → (ℕ → ℕ) → ℕ → ℕ
strncpy_from zero dst src count mem = mem
strncpy_from (suc left) dst src count mem =
    let rest =
      strncpy_from left dst src (count + 1) (update mem (dst + count) (mem (src + count))) in
    if mem (src + count) == 0 then pad_from (suc left) dst count mem else rest

unfoldable pub strncpy : (dst src n : ℕ) → (ℕ → ℕ) → ℕ × (ℕ → ℕ)
strncpy dst src n mem = if is_null dst src then (0, mem) else (dst, strncpy_from n dst src 0 mem)

-- The tests of `strcmp` behind its loop.
abbrev pub strcmp_end : (x y : ℕ) → Answer
strcmp_end x y = if not (x == 0) then greater else if not (y == 0) then less else same

-- The loop of `strcmp`.
unfoldable pub strcmp_from : ℕ → (count s1 s2 : ℕ) → (ℕ → ℕ) → Option Answer
strcmp_from zero count s1 s2 mem = none
strcmp_from (suc fuel) count s1 s2 mem =
    let rest = strcmp_from fuel (count + 1) s1 s2 mem in
    let x = mem (s1 + count) in
    let y = mem (s2 + count) in
    if not (x == 0) && not (y == 0)
    then (if char_lt y x then some greater else if char_lt x y then some less else rest)
    else some (strcmp_end x y)

unfoldable pub strcmp : ℕ → (s1 s2 : ℕ) → (ℕ → ℕ) → Option Answer
strcmp fuel s1 s2 mem = if is_null s1 s2 then some same else strcmp_from fuel 0 s1 s2 mem
