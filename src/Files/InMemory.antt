-- ===== src/Files/InMemory.antt =====
-- The laws of links on the machine in memory.
use eacopy.Base.{ℕ, ◌≢◌, arith, inl, inr, Bool-cases, Option-cases, ◌==◌}
use eacopy.Os.Memory.{settled, look, memory}
use eacopy.Files.Links.{RefusedByFiles}

-- A file of the machine is never without attributes.
settled-nonzero : (a : ℕ) → settled a ≢ 0
settled-nonzero a h = elim (Bool-cases (a == 0)) [
  | inl z ↦ absurd (ground (arith, z, h))
  | inr z ↦ absurd (ground (arith, z, h))
]

pub RefusedByFiles-memory : RefusedByFiles memory
RefusedByFiles-memory = record {
  refused-there = λ path source m h. elim (Option-cases (look path m.nodes)) [
    | inl gone ↦ elim (Option-cases (look source m.nodes)) [
      | inl nothing ↦ absurd (ground (arith, h, gone, nothing))
      | inr (n, there) ↦ absurd (ground (arith, h, gone, there))
    ]
    | inr ((a, i), there) ↦ (settled a, i, ground (arith, there), settled-nonzero a)
  ];
}
