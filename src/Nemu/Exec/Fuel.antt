-- ===== src/Nemu/Exec/Fuel.antt =====
-- How much fuel one instruction takes: `isa_exec`, `2byte_esc` and the opcode table of
-- Emulator/nemu/src/isa/x86/exec/exec.c.
use mathlib.Core.Path.{fun_ext}
use projects_demonstration.Base.{
  ℕ, zero, suc, ◌+◌, ◌/◌, ◌%◌, ◌<◌, ◌≡◌, ◌≢◌, refl, sym, ap, ◌∙◌, Bool, true, false, ◌&&◌, ◌||◌,
  Option, none, some, ◌==◌, if◌then◌else◌, ltb, get_or, arith, ne→==,
}
use projects_demonstration.Nemu.{Machine, Run, ◌>>=◌, ◌>>◌}
use projects_demonstration.Nemu.Decode.{instr_fetch}
use projects_demonstration.Nemu.Exec.{run_entry, exec_from, isa_exec, set_width}
use projects_demonstration.Nemu.Exec.Group.{
  OpcodeEntry, EHelper, run, two_byte_esc, operand_size, run_decode,
}
use projects_demonstration.Nemu.Exec.System.{exec_operand_size}
use projects_demonstration.Nemu.Exec.Table.{
  opcode_table, one_byte_table, two_byte_table, empty_row, row_entry,
}
use projects_demonstration.Nemu.Steps.{after_bind}

-- The entry is an instruction, or it is not the prefix.
abbrev is_run : EHelper → Bool
is_run (run r) = true
is_run two_byte_esc = false
is_run operand_size = false

abbrev is_no_prefix : EHelper → Bool
is_no_prefix (run r) = true
is_no_prefix two_byte_esc = true
is_no_prefix operand_size = false

all_below : ℕ → (ℕ → Bool) → Bool
all_below zero p = true
all_below (suc n) p = p n && all_below n p

all_below_lem : (n : ℕ) (p : ℕ → Bool) (i : ℕ) → all_below n p ≡ true → i < n → p i ≡ true
unfolding all_below
all_below_lem zero p i h lt = absurd (omega arith)
all_below_lem (suc n) p i h lt = ground (arith, all_below_lem n p i)

two_byte_entry : ℕ → OpcodeEntry
two_byte_entry i = row_entry (get_or two_byte_table (i / 4) empty_row) (i % 4)

two_byte_runs : all_below 256 (λ i. is_run (two_byte_entry i).execute) ≡ true
unfolding all_below two_byte_entry
two_byte_runs = refl

one_byte_no_prefix :
    all_below 256 (λ i. (i == 0x66) || is_no_prefix (opcode_table i).execute) ≡ true
unfolding all_below
one_byte_no_prefix = refl

helper_exec : EHelper → (a b : Run (Unit {0})) → Run (Unit {0})
helper_exec h a b = elim h [ run r ↦ r | two_byte_esc ↦ b | operand_size ↦ exec_operand_size a ]

-- An instruction runs neither call, and an escape only the second.
run_calls_none :
    (h : EHelper) (a b a' b' : Run (Unit {0}))
    → is_run h ≡ true
    → helper_exec h a b ≡ helper_exec h a' b'
unfolding helper_exec
run_calls_none (run r) a b a' b' e = refl
run_calls_none two_byte_esc a b a' b' e = absurd (ground arith)
run_calls_none operand_size a b a' b' e = absurd (ground arith)

no_prefix_calls :
    (h : EHelper) (a b a' : Run (Unit {0}))
    → is_no_prefix h ≡ true
    → helper_exec h a b ≡ helper_exec h a' b
unfolding helper_exec
no_prefix_calls (run r) a b a' e = refl
no_prefix_calls two_byte_esc a b a' e = refl
no_prefix_calls operand_size a b a' e = absurd (ground arith)

bind_same :
    {A B : Type 0} (r : Run A) (k k' : A → Run B) (m : Machine)
    → ((a : A) (m' : Machine) → k a m' ≡ k' a m')
    → (r >>= k) m ≡ (r >>= k') m
bind_same {A = A} {B = B} r k k' m same = go (r m)
  where
    go :
        (o : Option (A × Machine))
        → elim o [ none ↦ none | some (a, m') ↦ k a m' ]
          ≡ elim o [ none ↦ none | some (a, m') ↦ k' a m' ]
    go none = refl
    go (some (a, m')) = same a m'

second_half : (byte : ℕ) → opcode_table (0x100 + byte) ≡ two_byte_entry ((0x100 + byte) % 256)
unfolding two_byte_entry
second_half byte =
    ap
      (λ b.
        row_entry
          (get_or (if b then one_byte_table else two_byte_table) ((0x100 + byte) % 256 / 4)
            empty_row)
          ((0x100 + byte) % 256 % 4))
      above
  where
    above : ltb (0x100 + byte) 256 ≡ false
    above = ground arith

second_byte_runs : (byte : ℕ) → is_run (opcode_table (0x100 + byte)).execute ≡ true
second_byte_runs byte =
    ap (λ e. is_run e.execute) (second_half byte)
    ∙ all_below_lem 256 (λ i. is_run (two_byte_entry i).execute) ((0x100 + byte) % 256)
        two_byte_runs (omega arith)

-- After the escape one more unit of fuel is enough.
second_byte : (n : ℕ) (m : Machine) → exec_from (suc n) 0x100 m ≡ exec_from 1 0x100 m
unfolding exec_from helper_exec
second_byte n m = bind_same (instr_fetch 1) _ _ m λ byte m'.
    ap
      (λ k.
        (set_width (opcode_table (0x100 + byte)).width
            >> (run_decode (opcode_table (0x100 + byte)) >> k))
          (record m' { opcode = 0x100 + byte }))
      (run_calls_none (opcode_table (0x100 + byte)).execute (exec_from n 0) (exec_from n 0x100)
        (exec_from 0 0) (exec_from 0 0x100) (second_byte_runs byte))

or_false : (x y : Bool) → x ≡ false → (x || y) ≡ true → y ≡ true
or_false x y e f = ground arith

-- Two units of fuel are enough for an instruction whose first byte is not the prefix 0x66: more give the
-- same result.
pub two_units_enough :
    (n byte : ℕ) (m m1 : Machine)
    → instr_fetch 1 m ≡ some (byte, m1)
    → byte < 256
    → byte ≢ 0x66
    → isa_exec (suc (suc n)) m ≡ isa_exec 2 m
unfolding exec_from helper_exec
two_units_enough n byte m m1 e lt ne =
    after_bind (instr_fetch 1) _ m e
    ∙ ap (rest (exec_from (suc n) 0)) (fun_ext (second_byte n))
    ∙ ap
        (λ k.
          (set_width (opcode_table (0 + byte)).width >> (run_decode (opcode_table (0 + byte)) >> k))
            (record m1 { opcode = 0 + byte }))
        (no_prefix_calls (opcode_table (0 + byte)).execute (exec_from (suc n) 0) (exec_from 1 0x100)
          (exec_from 1 0) no_prefix)
    ∙ sym (after_bind (instr_fetch 1) _ m e)
  where
    rest : (a b : Run (Unit {0})) → Option (Unit {0} × Machine)
    rest a b = run_entry (opcode_table (0 + byte)) a b (record m1 { opcode = 0 + byte })

    no_prefix : is_no_prefix (opcode_table (0 + byte)).execute ≡ true
    no_prefix =
        ap (λ c. is_no_prefix (opcode_table c).execute) {x = 0 + byte} {y = byte} (omega arith)
        ∙ or_false (byte == 0x66) _ (ne→== byte 0x66 ne) (
            all_below_lem 256 (λ i. (i == 0x66) || is_no_prefix (opcode_table i).execute) byte
              one_byte_no_prefix lt)
