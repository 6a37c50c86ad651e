-- ===== src/Embeddings/Ort/Memory.antt =====
-- The memory that the models of lantern_cli/src/embeddings/core/ort_runtime.rs are said to need.
use Prim.Native.String.{String}
use native.Mathlib.Nat.{mul-le-mul}
use lanterndb.Prelude.{ℕ, ◌+◌, ◌*◌, ◌%◌, ◌≤◌, ◌<◌, arith, All}
use lanterndb.Embeddings.Ort.{get_required_memory}
use lanterndb.Embeddings.Ort.Models.{ModelInfo, model_info_map}

some_memory :
    (add_overhead : ℕ → ℕ) (model blocks s : ℕ)
    → ((n : ℕ) → n ≤ add_overhead n)
    → 0 < model
    → model < 33554432
    → blocks ≤ 144
    → s < 1048576
    → 0 < add_overhead ((model + blocks * s * (s + 128)) * 8 % 18446744073709551616)
some_memory add_overhead model blocks s grows pos small few short =
    let a : blocks * s ≤ 144 * 1048576 = mul-le-mul {m₂ = 1048576} few (omega arith) in
    let b : blocks * s * (s + 128) ≤ 144 * 1048576 * 1048704 =
      mul-le-mul {m₂ = 1048704} a (omega arith) in
    let n = (model + blocks * s * (s + 128)) * 8 % 18446744073709551616 in omega (arith, grows n, b)

-- For each of the models, and sequences of less than 2^20 tokens, the memory for one input is not
-- zero, if the overhead that is added to a size does not make it smaller.
pub model_info_map_memory :
    (E F : Type 0) (add_overhead : ℕ → ℕ) (seq_length : ℕ)
    → ((n : ℕ) → n ≤ add_overhead n)
    → seq_length < 1048576
    → All
        (λ (m : String × ModelInfo E F). 0 < get_required_memory add_overhead m.1.params seq_length)
        (model_info_map {E = E} {F = F})
unfolding get_required_memory model_info_map
model_info_map_memory E F add_overhead seq_length grows short = (
  omega arith,
  (
    omega arith,
    (
      omega arith,
      (
        omega arith,
        (
          omega arith,
          (
            some_memory add_overhead 2097152 32 seq_length grows (omega arith) (omega arith)
                (omega arith) short,
            (
              omega arith,
              (
                omega arith,
                (
                  omega arith,
                  (
                    omega arith,
                    (
                      omega arith,
                      (
                        omega arith,
                        (
                          omega arith,
                          (
                            omega arith,
                            (
                              some_memory add_overhead 1048576 16 seq_length grows (omega arith)
                                  (omega arith) (omega arith) short,
                              (
                                some_memory add_overhead 28311552 144 seq_length grows (omega arith)
                                    (omega arith) (omega arith) short,
                                (
                                  some_memory add_overhead 28311552 144 seq_length grows
                                      (omega arith) (omega arith) (omega arith) short,
                                  tt,
                                ),
                              ),
                            ),
                          ),
                        ),
                      ),
                    ),
                  ),
                ),
              ),
            ),
          ),
        ),
      ),
    ),
  ),
)
