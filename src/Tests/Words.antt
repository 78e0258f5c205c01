-- ===== src/Tests/Words.antt =====
-- The macros of include/eoblock_defs.h at concrete numbers.
use eoblock.Prelude.{arith}
use eoblock.Macros.Alignment.{Aligns, p2_align_typed-Aligns, Measures, p2_align-Measures}

p2_align_typed-Aligns_example : Aligns 32 12 5000 70000
p2_align_typed-Aligns_example =
    p2_align_typed-Aligns 32 12 5000 70000 (omega arith) (omega arith) (omega arith) (omega arith)

p2_align-Measures_example : Measures 9 1000 4096
p2_align-Measures_example =
    p2_align-Measures 9 1000 4096 (omega arith) (omega arith) (omega arith) (omega arith)
      (omega arith)
