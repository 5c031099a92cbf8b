-- ===== src/Decoder/Unique.antt =====
-- The rows of the tables exclude one another, so that the order in which `decode` tries them does
-- not matter.
use Prim.Native.Nat.{ℕ, zero, suc}
use mathlib.Core.Path.{◌≡◌, refl, subst}
use mathlib.Core.Bool.{Bool, true, false, not, ◌&&◌, ◌||◌, and-eq-true_iff}
use mathlib.Core.Logic.{inl, inr}
use mathlib.Core.List.{List, [], ◌∷◌}
use mathlib.Core.Option.{some, some-injective}
use native.Mathlib.Omega.{arith}
use riscv_sbt.Base.{◌==◌, get_elem?, Bool-cases}
use riscv_sbt.Decoder.Instructions.{InstructionSpec}
use riscv_sbt.Decoder.Table.{spec_lists}
use riscv_sbt.Decoder.Decode.{fits, from_spec, no_instruction, decode_in, decode}

-- what two rows ask of a word cannot hold together
differ_on : InstructionSpec → InstructionSpec → Bool
differ_on s t =
    not (s.opcode == t.opcode)
    || (s.use_funct3 && t.use_funct3 && not (s.funct3 == t.funct3))
    || (s.use_funct7 && t.use_funct7 && not (s.funct7 == t.funct7))
    || (not (s.bits_mask == 0)
        && s.bits_mask == t.bits_mask
        && not (s.bits_pattern == t.bits_pattern))

differ_on-fits :
    (w : ℕ) (s t : InstructionSpec) → differ_on s t ≡ true → fits w s ≡ true → fits w t ≡ false
unfolding differ_on fits
differ_on-fits w s t d h = ground arith

first_fails :
    (w : ℕ) (t s : InstructionSpec) → differ_on t s ≡ true → fits w s ≡ true → fits w t ≡ false
first_fails w t s d h = elim (Bool-cases (fits w t)) [
  | inl e ↦ cc (differ_on-fits w t s d e)
  | inr e ↦ e
]

differ_from_all : InstructionSpec → List InstructionSpec → Bool
differ_from_all s [] = true
differ_from_all s (t ∷ ts) = differ_on s t && differ_from_all s ts

differ_from_all-elem :
    (s t : InstructionSpec) (ts : List InstructionSpec) (n : ℕ)
    → differ_from_all s ts ≡ true
    → get_elem? ts n ≡ some t
    → differ_on s t ≡ true
unfolding differ_from_all
differ_from_all-elem s t [] n d e = cc
differ_from_all-elem s t (u ∷ ts) zero d e =
    let same : u ≡ t = some-injective _ _ e in
    subst (λ x. differ_on s x ≡ true) same ((and-eq-true_iff _ _).0 d).0
differ_from_all-elem s t (u ∷ ts) (suc n) d e =
    differ_from_all-elem s t ts n ((and-eq-true_iff _ _).0 d).1 e

pairwise_differ : List InstructionSpec → Bool
unfolding differ_from_all differ_on
pairwise_differ [] = true
pairwise_differ (t ∷ ts) = differ_from_all t ts && pairwise_differ ts

decode_in-row :
    (specs : List InstructionSpec) (n w a : ℕ) (s : InstructionSpec)
    → pairwise_differ specs ≡ true
    → get_elem? specs n ≡ some s
    → fits w s ≡ true
    → decode_in specs w a ≡ from_spec w a s
unfolding decode_in pairwise_differ
decode_in-row [] n w a s d e h = cc
decode_in-row (t ∷ ts) zero w a s d e h = let same : t ≡ s = some-injective _ _ e in rw (same, h)
decode_in-row (t ∷ ts) (suc n) w a s d e h =
    let (first, later) = (and-eq-true_iff _ _).0 d in
    let apart : differ_on t s ≡ true = differ_from_all-elem t s ts n first e in
    let earlier : fits w t ≡ false = first_fails w t s apart h in
    rw earlier (decode_in-row ts n w a s later e h)

tables_differ : pairwise_differ spec_lists ≡ true
unfolding pairwise_differ spec_lists
tables_differ = refl

-- If the row at any position of the tables fits a word, `decode` returns that row's type and
-- immediate and the word's register fields: no earlier row takes the word away.
pub decode-row :
    (n w a : ℕ) (s : InstructionSpec)
    → get_elem? spec_lists n ≡ some s
    → fits w s ≡ true
    → decode w a ≡ from_spec w a s
unfolding decode
decode-row n w a s e h = decode_in-row spec_lists n w a s tables_differ e h

decode_in-none :
    (specs : List InstructionSpec) (w a : ℕ)
    → ((n : ℕ) (s : InstructionSpec) → get_elem? specs n ≡ some s → fits w s ≡ false)
    → decode_in specs w a ≡ no_instruction a
unfolding decode_in
decode_in-none [] w a h = refl
decode_in-none (t ∷ ts) w a h = rw (h 0 t refl) (decode_in-none ts w a (λ n. h (suc n)))

-- Where no row fits, `decode` returns an INVALID instruction that carries only the address.
pub decode-none :
    (w a : ℕ)
    → ((n : ℕ) (s : InstructionSpec) → get_elem? spec_lists n ≡ some s → fits w s ≡ false)
    → decode w a ≡ no_instruction a
unfolding decode
decode-none w a h = decode_in-none spec_lists w a h
