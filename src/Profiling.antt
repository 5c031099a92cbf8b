-- ===== src/Profiling.antt =====
-- lib/ProfilingInfo.cpp: the counters of a run, and the JSON document that they are kept in.
pub mod Document
pub mod Addresses
pub mod Counts
pub mod Branches
pub mod Recorded
pub mod Opened
pub mod RoundTrip
use Prim.Native.Nat.{ℕ, zero, suc, ◌+◌, ◌-◌, ◌*◌, ◌/◌, ◌%◌, ◌^◌, bit_and}
use Prim.Native.String.{String}
use mathlib.Core.Bool.{Bool, true, false, ◌&&◌, ◌||◌, not}
use mathlib.Core.List.{List, [], ◌∷◌, map}
use mathlib.Core.Option.{Option, none, some, bind}
use text.Mathlib.Text
use riscv_sbt.Base.{get_elem?, length, set, ltb, leb, ◌==◌, if◌then◌else◌}
use riscv_sbt.Base.Word.{u32, u64}

-- by the position of the type in the enumeration
unfoldable pub instruction_names : List String
instruction_names =
    "ADD" ∷ "SUB" ∷ "XOR" ∷ "OR" ∷ "AND" ∷ "SLL" ∷ "SRL" ∷ "SRA" ∷ "SLT" ∷ "SLTU" ∷ "ADDI" ∷ "XORI"
    ∷ "ORI" ∷ "ANDI" ∷ "SLLI" ∷ "SRLI" ∷ "SRAI" ∷ "SLTI" ∷ "SLTIU" ∷ "LB" ∷ "LH" ∷ "LW" ∷ "LBU"
    ∷ "LHU" ∷ "SB" ∷ "SH" ∷ "SW" ∷ "BEQ" ∷ "BNE" ∷ "BLT" ∷ "BGE" ∷ "BLTU" ∷ "BGEU" ∷ "JAL" ∷ "JALR"
    ∷ "LUI" ∷ "AUIPC" ∷ "ECALL" ∷ "EBREAK" ∷ "FENCE" ∷ "MUL" ∷ "MULH" ∷ "MULHSU" ∷ "MULHU" ∷ "DIV"
    ∷ "DIVU" ∷ "REM" ∷ "REMU" ∷ "LR_W" ∷ "SC_W" ∷ "INVALID" ∷ []

-- The loop over the names from index `i` on; it throws where there is none.
unfoldable pub index_from : List String → ℕ → String → Option ℕ
index_from [] i name = none
index_from (n ∷ rest) i name =
    let later = index_from rest (i + 1) name in if Text.◌==◌ n name then some i else later

unfoldable pub parse_instruction_name : String → Option ℕ
unfolding index_from instruction_names
parse_instruction_name name = index_from instruction_names 0 name

-- An address is written in characters, here by their ASCII codes.
abbrev pub hex_digit : ℕ → ℕ
hex_digit d = if ltb d 10 then d + 48 else d + 87

unfoldable pub format_digits : ℕ → ℕ → List ℕ
format_digits zero a = []
format_digits (suc n) a = hex_digit (a / 16 ^ n % 16) ∷ format_digits n a

-- 0x and eight digits
unfoldable pub format_address : ℕ → List ℕ
format_address a = 48 ∷ 120 ∷ format_digits 8 a

-- the value of a digit, or one that no base has
unfoldable pub digit_value : ℕ → ℕ
digit_value c =
    if leb 48 c && leb c 57
    then c - 48
    else if leb 97 c && leb c 102
    then c - 87
    else if leb 65 c && leb c 70
    then c - 55
    else 99

-- the digits of a number, up to a character that is none
unfoldable pub read_digits : ℕ → ℕ → List ℕ → ℕ
unfolding digit_value
read_digits base acc [] = acc
read_digits base acc (c ∷ rest) =
    let later = read_digits base (acc * base + digit_value c) rest in
    if ltb (digit_value c) base then later else acc

-- what an `unsigned long` holds; more is thrown at
abbrev pub fitting : ℕ → Option ℕ
fitting v = if ltb v (2 ^ 64) then some v else none

-- after a leading 0
unfoldable pub read_prefixed : List ℕ → Option ℕ
read_prefixed [] = some 0
read_prefixed (x ∷ rest) =
    if x == 120 || x == 88
    then fitting (read_digits 16 0 rest)
    else fitting (read_digits 8 0 (x ∷ rest))

-- `std::stoul` with base 0, of a string without white space and sign: it throws without a digit.
unfoldable pub stoul : List ℕ → Option ℕ
stoul [] = none
stoul (c ∷ rest) =
    if c == 48
    then read_prefixed rest
    else if ltb (digit_value c) 10
    then fitting (read_digits 10 0 (c ∷ rest))
    else none

unfoldable pub parse_address : List ℕ → Option ℕ
parse_address s = elim (stoul s) [ none ↦ none | some v ↦ some (u32 v) ]

-- The counters, of which the first are by type and the second by register, and the map from a branch
-- to the counts of its destinations; a map is the list of its pairs.
pub record ProfilingInfo : Type 0 where
  pub append_mode : Bool
  pub has_loaded_existing_data : Bool
  pub instruction_counts : List ℕ
  pub register_access_counts : List ℕ
  pub indirect_branch_targets : List (ℕ × List (ℕ × ℕ))

unfoldable pub zeros : ℕ → List ℕ
zeros zero = []
zeros (suc n) = 0 ∷ zeros n

-- `counts[i]++`
unfoldable pub count_at : List ℕ → ℕ → List ℕ
count_at [] i = []
count_at (c ∷ rest) zero = u64 (c + 1) ∷ rest
count_at (c ∷ rest) (suc i) = c ∷ count_at rest i

-- `map[key]` changed by `f`, where a key that is missing has the value `d`
unfoldable pub change_at {ℓ} : {V : Type ℓ} → V → ℕ → (V → V) → List (ℕ × V) → List (ℕ × V)
change_at d key f [] = (key, f d) ∷ []
change_at d key f ((k, v) ∷ rest) =
    let later = change_at d key f rest in if k == key then (k, f v) ∷ rest else (k, v) ∷ later

unfoldable pub increment_instruction_count : ℕ → ProfilingInfo → ProfilingInfo
increment_instruction_count type p = record p {
  instruction_counts = count_at p.instruction_counts type;
}

unfoldable pub record_indirect_branch : ℕ → ℕ → ProfilingInfo → ProfilingInfo
record_indirect_branch branch destination p = record p {
  indirect_branch_targets =
      change_at [] branch (change_at 0 destination (λ n. u64 (n + 1))) p.indirect_branch_targets;
}

-- one `if` of the next function: an index past the array is not counted
unfoldable pub count_access : ℕ → ℕ → ℕ → List ℕ → List ℕ
count_access register_use mask r counts =
    if not (bit_and register_use mask == 0) && ltb r 32 then count_at counts r else counts

-- USE_RS1, USE_RS2 and USE_RD are 1, 2 and 4.
unfoldable pub record_register_access : ℕ → ℕ → ℕ → ℕ → ProfilingInfo → ProfilingInfo
record_register_access register_use rs1 rs2 rd p = record p {
  register_access_counts =
      count_access register_use 4 rd (
        count_access register_use 2 rs2 (count_access register_use 1 rs1 p.register_access_counts));
}
