-- ===== src/Str/Tests.antt =====
-- The string functions on a memory that holds the string "AB" at 20, with zeros elsewhere.
use projects_demonstration.Base.{
  ℕ, zero, suc, ◌+◌, ◌<◌, ◌≡◌, ◌≢◌, ◌↔◌, refl, inl, arith, some, update,
}
use projects_demonstration.Str.Order.{Equal, strcmp-Equal}
use projects_demonstration.Str.{Answer, strcmp, same, strcat, memcpy, memset, memcmp, strncmp}
use projects_demonstration.Str.Fill.{Fills, memset-Fills}
use projects_demonstration.Str.Copy.{IsString, Copies, memcpy-Copies, strcat-IsString}
use projects_demonstration.Str.Compare.{Bytes, memcmp-equal}

abbrev memory : ℕ → ℕ
memory = update (update (λ a. 0) 20 65) 21 66

abbrev two_strings : ℕ → ℕ
two_strings = update memory 40 67

memory-IsString : IsString memory 20 2
memory-IsString = record { body = λ i lt. body i lt; ending = refl }
  where
    body : (i : ℕ) → i < 2 → memory (20 + i) ≢ 0
    body zero lt = omega arith
    body (suc zero) lt = omega arith
    body (suc (suc i)) lt = absurd (omega arith)

first-IsString : IsString two_strings 20 2
first-IsString = record { body = λ i lt. body i lt; ending = refl }
  where
    body : (i : ℕ) → i < 2 → two_strings (20 + i) ≢ 0
    body zero lt = omega arith
    body (suc zero) lt = omega arith
    body (suc (suc i)) lt = absurd (omega arith)

second-IsString : IsString two_strings 40 1
second-IsString = record { body = λ i lt. body i lt; ending = refl }
  where
    body : (i : ℕ) → i < 1 → two_strings (40 + i) ≢ 0
    body zero lt = omega arith
    body (suc i) lt = absurd (omega arith)

-- An overlap: the target begins one byte above the source.
memcpy-Copies_example :
    (mem' : ℕ → ℕ) × (memcpy 21 20 2 memory ≡ (21, mem')) × Copies memory mem' 21 20 2
memcpy-Copies_example = memcpy-Copies 21 20 2 memory (omega arith) (omega arith) (inl (omega arith))

strcat-IsString_example :
    (mem' : ℕ → ℕ) × (strcat 5 20 40 two_strings ≡ some (20, mem'))
    × IsString mem' 20 3
    × Copies two_strings mem' 22 40 2
strcat-IsString_example =
    strcat-IsString 5 20 40 2 1 two_strings (omega arith) (omega arith) (omega arith) (omega arith)
      first-IsString second-IsString (inl (omega arith))

memory-Bytes : Bytes memory
memory-Bytes a = ground arith

memcmp-equal_example :
    ((memcmp 20 30 2 memory ≡ same) ↔ ((k : ℕ) → k < 2 → memory (20 + k) ≡ memory (30 + k)))
    × (strncmp 20 30 2 memory ≡ memcmp 20 30 2 memory)
memcmp-equal_example = memcmp-equal 20 30 2 memory memory-Bytes (omega arith) (omega arith)

two-Bytes : Bytes two_strings
two-Bytes a = ground arith

strcmp-Equal_example :
    (answer : Answer) × (strcmp 5 20 40 two_strings ≡ some answer)
    × ((answer ≡ same) ↔ Equal two_strings 20 40 2 1 0)
strcmp-Equal_example =
    strcmp-Equal 5 20 40 2 1 two_strings two-Bytes (omega arith) (omega arith) (omega arith)
      first-IsString second-IsString

memset-Fills_example :
    (mem' : ℕ → ℕ) × (memset 20 321 4 memory ≡ (20, mem')) × Fills memory mem' 20 321 4
memset-Fills_example = memset-Fills 20 321 4 memory (omega arith)
