-- ===== src/Playground/Simd.antt =====
-- code/playground/simd-support.cc: what the handler logs of the processor. The instructions cpuid and
-- xgetbv are parameters; the registers are 32 bits, as numbers.
use lab_cpp.Base.{
  ℕ, ◌/◌, ◌%◌, ◌^◌, ◌≡◌, refl, Bool, true, false, ◌&&◌, List, if◌then◌else◌, ◌==◌, leb,
}
use lab_cpp.Base.Int.{ℤ, pos}
use lab_cpp.Base.Text.{Text, codes}
use lab_cpp.Logger.{LogEntry, new_entry, int_field, log}

pub record CpuInfo : Type 0 where
  pub eax : ℕ
  pub ebx : ℕ
  pub ecx : ℕ
  pub edx : ℕ

pub record Cpu : Type 0 where
  pub cpuid : ℕ → CpuInfo
  pub xgetbv : ℕ → ℕ

-- `register & (1 << n) || false`
unfoldable pub has_bit : ℕ → ℕ → Bool
has_bit n register = (register / 2 ^ n) % 2 == 1

pub record Support : Type 0 where
  pub sse : Bool
  pub sse2 : Bool
  pub sse3 : Bool
  pub ssse3 : Bool
  pub sse4_1 : Bool
  pub sse4_2 : Bool
  pub sse4a : Bool
  pub sse5 : Bool
  pub avx : Bool

-- The operating system is asked only where OSXSAVE says that it can be.
unfoldable pub avx_supported : Cpu → Bool
unfolding has_bit
avx_supported cpu =
    let ecx = (cpu.cpuid 1).ecx in
    if has_bit 27 ecx && has_bit 28 ecx
    then has_bit 1 (cpu.xgetbv 0) && has_bit 2 (cpu.xgetbv 0)
    else has_bit 28 ecx

-- The comparison of the number of extended ids is one of unsigned numbers.
unfoldable pub simd_support : Cpu → Support
unfolding avx_supported has_bit
simd_support cpu =
    let info = cpu.cpuid 1 in
    let extended = leb 2_147_483_649 (cpu.cpuid 2_147_483_648).eax in
    let extended_ecx = (cpu.cpuid 2_147_483_649).ecx in
    record {
      sse = has_bit 25 info.edx;
      sse2 = has_bit 26 info.edx;
      sse3 = has_bit 0 info.ecx;
      ssse3 = has_bit 9 info.ecx;
      sse4_1 = has_bit 19 info.ecx;
      sse4_2 = has_bit 20 info.ecx;
      sse4a = extended && has_bit 6 extended_ecx;
      sse5 = extended && has_bit 11 extended_ecx;
      avx = avx_supported cpu;
    }

abbrev pub flag : Text → Bool → LogEntry → LogEntry
flag key b entry = int_field key (pos (if b then 1 else 0)) entry

-- The entry `supp_simd_instr_sets`, which leaves out SSSE3.
unfoldable pub support_entry : ℕ → ℕ → Support → LogEntry
unfolding new_entry int_field
support_entry container_runs now s = flag (codes "AVX") s.avx (
    flag (codes "SSE5") s.sse5 (
      flag (codes "SSE4a") s.sse4a (
        flag (codes "SSE4.2") s.sse4_2 (
          flag (codes "SSE4.1") s.sse4_1 (
            flag (codes "SSE3") s.sse3 (
              flag (codes "SSE2") s.sse2 (
                flag (codes "SSE") s.sse
                  (new_entry container_runs (codes "supp_simd_instr_sets") now))))))))

unfoldable pub hardware_entry : ℕ → ℕ → (nb_cores : ℕ) → (current_core : ℤ) → LogEntry
unfolding new_entry int_field
hardware_entry container_runs now nb_cores current_core =
    int_field (codes "current_core") current_core (
      int_field (codes "nb_cores") (pos nb_cores)
        (new_entry container_runs (codes "cpu_hardware") now))

-- The handler, with the times of its two entries.
unfoldable pub log_hardware :
    (LogEntry → Text) → ℕ → Cpu → (nb_cores : ℕ) → ℤ → (first second : ℕ) → List Text → List Text
unfolding simd_support support_entry hardware_entry log
log_hardware render container_runs cpu nb_cores current_core first second out =
    log render (hardware_entry container_runs second nb_cores current_core)
      (log render (support_entry container_runs first (simd_support cpu)) out)

-- Where the processor has AVX and not OSXSAVE, AVX is reported as supported.
pub avx_unasked :
    (cpu : Cpu)
    → has_bit 27 (cpu.cpuid 1).ecx ≡ false
    → has_bit 28 (cpu.cpuid 1).ecx ≡ true
    → (simd_support cpu).avx ≡ true
unfolding simd_support avx_supported
avx_unasked cpu o a = rw (o, a, avx_supported) refl
