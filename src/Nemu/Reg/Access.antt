-- ===== src/Nemu/Reg/Access.antt =====
-- Registers of one, two and four bytes that share storage: `rtl_lr` and `rtl_sr` of
-- Emulator/nemu/src/isa/x86/include/isa/rtl.h.
use projects_demonstration.Base.{
  ℕ, ◌+◌, ◌*◌, ◌/◌, ◌%◌, ◌^◌, ◌<◌, ◌≡◌, ◌≢◌, ◌⊎◌, inl, inr, sym, ap, ◌∙◌, Bool, true, not, ◌||◌,
  some, if◌then◌else◌, ◌==◌, leb, arith, update, update-ne, update-eq, ◌>>=◌, eq-cases,
}
use projects_demonstration.Nemu.Reg.{read_reg, write_reg, splice}

-- The register of four bytes that a register is part of, and its first bit in it.
abbrev pub whole : (r width : ℕ) → ℕ
whole r width = if width == 1 then r % 4 else r

abbrev pub first_bit : (r width : ℕ) → ℕ
first_bit r width = if width == 1 then r / 4 * 8 else 0

-- The registers have no bit in common.
abbrev pub apart : (r width r' width' : ℕ) → Bool
apart r width r' width' =
    not (whole r width == whole r' width')
    || leb (first_bit r width + 8 * width) (first_bit r' width')
    || leb (first_bit r' width' + 8 * width') (first_bit r width)

pub data IsWidth : ℕ → Type 0 where
  byte : IsWidth 1
  word : IsWidth 2
  long : IsWidth 4

-- The register of four bytes after the write.
abbrev new_whole : {w : ℕ} → IsWidth w → (gpr : ℕ → ℕ) (r v : ℕ) → ℕ
new_whole byte gpr r v = splice (gpr (r % 4)) (r / 4 * 8) 8 v
new_whole word gpr r v = splice (gpr r) 0 16 v
new_whole long gpr r v = v

write_reg_lem :
    (w : ℕ) (iw : IsWidth w) (gpr : ℕ → ℕ) (r v : ℕ)
    → r < 8
    → write_reg gpr r v w ≡ some (update gpr (whole r w) (new_whole iw gpr r v))
unfolding write_reg
write_reg_lem _ byte gpr r v lt = ground arith
write_reg_lem _ word gpr r v lt = ground arith
write_reg_lem _ long gpr r v lt = ground arith

abbrev field : {w : ℕ} → IsWidth w → (r x : ℕ) → ℕ
field byte r x = x / 2 ^ (r / 4 * 8) % 2 ^ 8
field word r x = x % 2 ^ 16
field long r x = x

read_reg_lem :
    (w : ℕ) (iw : IsWidth w) (gpr : ℕ → ℕ) (r : ℕ)
    → r < 8
    → read_reg gpr r w ≡ some (field iw r (gpr (whole r w)))
unfolding read_reg
read_reg_lem _ byte gpr r lt = ground arith
read_reg_lem _ word gpr r lt = ground arith
read_reg_lem _ long gpr r lt = ground arith

high_or_low : (r : ℕ) → r < 8 → (r / 4 ≡ 0) ⊎ (r / 4 ≡ 1)
high_or_low r lt = omega arith

low_splice : (x v : ℕ) → splice x 0 8 v / 2 ^ 0 % 2 ^ 8 ≡ v % 2 ^ 8
low_splice x v = omega arith

high_splice : (x v : ℕ) → splice x 8 8 v / 2 ^ 8 % 2 ^ 8 ≡ v % 2 ^ 8
high_splice x v = omega arith

low_of_high : (x v : ℕ) → splice x 8 8 v / 2 ^ 0 % 2 ^ 8 ≡ x / 2 ^ 0 % 2 ^ 8
low_of_high x v = omega arith

high_of_low : (x v : ℕ) → splice x 0 8 v / 2 ^ 8 % 2 ^ 8 ≡ x / 2 ^ 8 % 2 ^ 8
high_of_low x v = omega arith

byte_splice :
    (p x v : ℕ) → (p ≡ 0) ⊎ (p ≡ 1) → splice x (p * 8) 8 v / 2 ^ (p * 8) % 2 ^ 8 ≡ v % 2 ^ 8
byte_splice p x v (inl e) = rw e (low_splice x v)
byte_splice p x v (inr e) = rw e (high_splice x v)

other_byte :
    (p q x v : ℕ)
    → (p ≡ 0) ⊎ (p ≡ 1)
    → (q ≡ 0) ⊎ (q ≡ 1)
    → p ≢ q
    → splice x (p * 8) 8 v / 2 ^ (q * 8) % 2 ^ 8 ≡ x / 2 ^ (q * 8) % 2 ^ 8
other_byte p q x v (inl e) (inl f) ne = absurd (ne (e ∙ sym f))
other_byte p q x v (inl e) (inr f) ne = rw (e, f) (high_of_low x v)
other_byte p q x v (inr e) (inl f) ne = rw (e, f) (low_of_high x v)
other_byte p q x v (inr e) (inr f) ne = absurd (ne (e ∙ sym f))

field_new :
    (w : ℕ) (iw : IsWidth w) (gpr : ℕ → ℕ) (r v : ℕ)
    → r < 8
    → v < 2 ^ 32
    → field iw r (new_whole iw gpr r v) ≡ v % 2 ^ (8 * w)
field_new _ byte gpr r v lt vlt = byte_splice (r / 4) (gpr (r % 4)) v (high_or_low r lt)
field_new _ word gpr r v lt vlt = omega arith
field_new _ long gpr r v lt vlt = omega arith

-- In one register of four bytes only two registers of one byte are apart.
same_whole :
    (w w' : ℕ) (iw : IsWidth w) (iw' : IsWidth w') (gpr : ℕ → ℕ) (r r' v : ℕ)
    → r < 8
    → r' < 8
    → apart r w r' w' ≡ true
    → whole r w ≡ whole r' w'
    → field iw' r' (new_whole iw gpr r v) ≡ field iw' r' (gpr (whole r w))
same_whole _ _ byte byte gpr r r' v lt lt' h e =
    other_byte (r / 4) (r' / 4) (gpr (r % 4)) v (high_or_low r lt) (high_or_low r' lt')
      (λ f. ground arith)
same_whole _ _ byte word gpr r r' v lt lt' h e = absurd (ground arith)
same_whole _ _ byte long gpr r r' v lt lt' h e = absurd (ground arith)
same_whole _ _ word byte gpr r r' v lt lt' h e = absurd (ground arith)
same_whole _ _ word word gpr r r' v lt lt' h e = absurd (ground arith)
same_whole _ _ word long gpr r r' v lt lt' h e = absurd (ground arith)
same_whole _ _ long byte gpr r r' v lt lt' h e = absurd (ground arith)
same_whole _ _ long word gpr r r' v lt lt' h e = absurd (ground arith)
same_whole _ _ long long gpr r r' v lt lt' h e = absurd (ground arith)

apart_field :
    (w w' : ℕ) (iw : IsWidth w) (iw' : IsWidth w') (gpr : ℕ → ℕ) (r r' v : ℕ)
    → r < 8
    → r' < 8
    → apart r w r' w' ≡ true
    → field iw' r' (update gpr (whole r w) (new_whole iw gpr r v) (whole r' w'))
      ≡ field iw' r' (gpr (whole r' w'))
apart_field w w' iw iw' gpr r r' v lt lt' h = elim (eq-cases (whole r' w') (whole r w)) [
  | inl e ↦
      ap (λ i. field iw' r' (update gpr (whole r w) (new_whole iw gpr r v) i)) e
      ∙ ap (field iw' r') (update-eq gpr (whole r w) (new_whole iw gpr r v))
      ∙ same_whole w w' iw iw' gpr r r' v lt lt' h (sym e)
      ∙ ap (λ i. field iw' r' (gpr i)) (sym e)
  | inr ne ↦ ap (field iw' r') (update-ne gpr (whole r w) (whole r' w') _ ne)
]

-- Writing a number below 2 ^ 32 to a register of one, two or four bytes and reading the register
-- gives the number modulo 2 to its bits, and reading a register that has no bit in common with
-- it gives what it held.
pub write_then_read :
    (w w' : ℕ) (iw : IsWidth w) (iw' : IsWidth w') (gpr : ℕ → ℕ) (r r' v : ℕ)
    → r < 8
    → r' < 8
    → v < 2 ^ 32
    → apart r w r' w' ≡ true
    → ((write_reg gpr r v w >>= λ g. read_reg g r w) ≡ some (v % 2 ^ (8 * w)))
      × ((write_reg gpr r v w >>= λ g. read_reg g r' w') ≡ read_reg gpr r' w')
write_then_read w w' iw iw' gpr r r' v lt lt' vlt h = (
  ap (λ o. o >>= λ g. read_reg g r w) (write_reg_lem w iw gpr r v lt)
      ∙ read_reg_lem w iw _ r lt
      ∙ ap (λ x. some (field iw r x)) (update-eq gpr (whole r w) (new_whole iw gpr r v))
      ∙ ap some (field_new w iw gpr r v lt vlt),
  ap (λ o. o >>= λ g. read_reg g r' w') (write_reg_lem w iw gpr r v lt)
      ∙ read_reg_lem w' iw' _ r' lt'
      ∙ ap some (apart_field w w' iw iw' gpr r r' v lt lt' h)
      ∙ sym (read_reg_lem w' iw' gpr r' lt'),
)
