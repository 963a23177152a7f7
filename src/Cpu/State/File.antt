-- ===== src/Cpu/State/File.antt =====
-- src/cpu/riscv/simple_riscv64.c: the registers as the instruction set sees them, with `x0` always 0.
use gran.Prelude.{
  ℕ, ◌≡◌, ◌<◌, true, false, not, ◌&&◌, Option, none, some, arith, refl, ◌∙◌, ltb, ◌==◌,
  if◌then◌else◌, length, get_elem?, set, get_elem?-some, get_elem?-set_self, get_elem?-set_ne,
  AllBelow, AllBelow-get_elem?, set-AllBelow, ◌^◌, Option-cases, length-set, lt→ltb, Bool-cases,
  inl, inr, subst,
}
use native.Mathlib.Decide.{ℕ_discrete}
use gran.Cpu.State.{Cpu, get_reg, set_reg}

-- The register file has its 32 registers.
abbrev pub HasRegs : Cpu → Type 0
HasRegs cpu = length cpu.regs ≡ 32

abbrev or_zero : Option ℕ → ℕ
or_zero none = 0
or_zero (some v) = v

-- Every register holds a word.
abbrev pub HasWords : Cpu → Type 0
HasWords cpu = AllBelow (2 ^ 64) cpu.regs

-- What an instruction reads from register `i`.
unfoldable pub reg_at : Cpu → ℕ → ℕ
reg_at cpu i = if i == 0 then 0 else or_zero (get_elem? cpu.regs i)

-- The register file after `v` was written to register `rd`.
abbrev pub written : (ℕ → ℕ) → ℕ → ℕ → ℕ → ℕ
written file rd v j = if j == rd && not (rd == 0) then v else file j

pub get_reg-reg_at :
    (cpu : Cpu) (i : ℕ) → HasRegs cpu → i < 32 → get_reg cpu i ≡ some (reg_at cpu i)
unfolding get_reg reg_at
get_reg-reg_at cpu i h k =
    let (v, read) = get_elem?-some cpu.regs i (omega (arith, h)) in
    let inside : ltb i 32 ≡ true = lt→ltb i 32 k in
    elim (Bool-cases (i == 0)) [ inl z ↦ rw (inside, z) refl | inr z ↦ rw (inside, z, read) refl ]

-- The processor after a write to register `rd`.
abbrev pub with_reg : Cpu → ℕ → ℕ → Cpu
with_reg cpu rd v = record cpu { regs = if rd == 0 then cpu.regs else set cpu.regs rd v }

pub set_reg-with_reg :
    (cpu : Cpu) (rd v : ℕ) → HasRegs cpu → rd < 32 → set_reg cpu rd v ≡ some (with_reg cpu rd v)
unfolding set_reg
set_reg-with_reg cpu rd v h k =
    let inside : ltb rd 32 ≡ true = lt→ltb rd 32 k in
    let room : ltb rd (length cpu.regs) ≡ true = lt→ltb rd (length cpu.regs) (omega (arith, h)) in
    elim (Bool-cases (rd == 0)) [ inl z ↦ rw (inside, z) refl | inr z ↦ rw (inside, z, room) refl ]

pub with_reg-HasRegs : (cpu : Cpu) (rd v : ℕ) → HasRegs cpu → HasRegs (with_reg cpu rd v)
with_reg-HasRegs cpu rd v h = elim (Bool-cases (rd == 0)) [
  | inl z ↦ rw z h
  | inr z ↦ rw z (length-set cpu.regs rd v ∙ h)
]

pub reg_at-with_reg :
    (cpu : Cpu) (rd v j : ℕ)
    → HasRegs cpu
    → rd < 32
    → reg_at (with_reg cpu rd v) j ≡ written (reg_at cpu) rd v j
unfolding reg_at
reg_at-with_reg cpu rd v j h k = elim (Bool-cases (rd == 0)) [
  | inl z ↦ let off : (j == rd && not (rd == 0)) ≡ false = ground arith in rw (off, z) refl
  | inr z ↦ elim (ℕ_discrete rd j) [
    | yes same ↦
        let on : (j == rd && not (rd == 0)) ≡ true = ground arith in
        let not_x0 : (j == 0) ≡ false = ground arith in
        let there : get_elem? (set cpu.regs rd v) j ≡ some v =
          subst (λ (m : ℕ). get_elem? (set cpu.regs rd v) m ≡ some v) same
            (get_elem?-set_self cpu.regs rd v (omega (arith, h))) in
        rw (on, not_x0, z, there) refl
    | no other ↦
        let off : (j == rd && not (rd == 0)) ≡ false = ground arith in
        rw (off, z, get_elem?-set_ne cpu.regs rd j v other) refl
  ]
]

pub reg_at-lt : (cpu : Cpu) (i : ℕ) → HasWords cpu → reg_at cpu i < 2 ^ 64
unfolding reg_at
reg_at-lt cpu i h = elim (Bool-cases (i == 0)) [
  | inl z ↦ rw z (omega arith)
  | inr z ↦ elim (Option-cases (get_elem? cpu.regs i)) [
    | inl gone ↦ rw (z, gone) (omega arith)
    | inr (v, read) ↦ rw (z, read) (AllBelow-get_elem? (2 ^ 64) cpu.regs i v h read)
  ]
]

pub with_reg-HasWords :
    (cpu : Cpu) (rd v : ℕ) → HasWords cpu → v < 2 ^ 64 → HasWords (with_reg cpu rd v)
with_reg-HasWords cpu rd v h k = elim (Bool-cases (rd == 0)) [
  | inl z ↦ rw z h
  | inr z ↦ rw z (set-AllBelow (2 ^ 64) cpu.regs rd v h k)
]
