-- ===== src/Merkle/Least.antt =====
-- How high a tree has to be (merkle-tree/src/lib.rs: the height that `is_valid` computes).
use house_of_stake_contracts.Base.{
  ◌==◌, Bool-cases, u32_max, ℕ, zero, suc, ◌+◌, ◌-◌, ◌/◌, ◌^◌, ◌≤◌, ◌<◌, ◌≡◌, sym, false, subst,
  inl, inr, arith,
}
use native.Mathlib.Nat.{one-le-pow, pow-suc}
use house_of_stake_contracts.Merkle.{bit_length, height_of_leaves}

bit_length-enough : (bits n : ℕ) → n < 2 ^ bits → n < 2 ^ bit_length bits n
unfolding bit_length
bit_length-enough zero n small = small
bit_length-enough (suc bits) n small = elim (Bool-cases (n == 0)) [
  | inl e ↦ rw e (ground arith)
  | inr e ↦
      let rest = bit_length-enough bits (n / 2) (omega (arith, small, pow-suc 2 bits)) in
      rw e (omega (arith, rest, pow-suc 2 (bit_length bits (n / 2))))
]

pub bit_length-least : (bits n k : ℕ) → n < 2 ^ k → bit_length bits n ≤ k
unfolding bit_length
bit_length-least zero n k small = omega arith
bit_length-least (suc bits) n zero small =
    let none_left : n ≡ 0 = omega (arith, small) in ground arith
bit_length-least (suc bits) n (suc k) small =
    let rest = bit_length-least bits (n / 2) k (omega (arith, small, pow-suc 2 k)) in
    ground (arith, rest)

-- A number that needs more binary digits has at least as many.
pub bit_length-most : (bits n k : ℕ) → k < bits → 2 ^ k ≤ n → suc k ≤ bit_length bits n
unfolding bit_length
bit_length-most zero n k few large = absurd (omega arith)
bit_length-most (suc bits) n zero few large = ground (arith, large)
bit_length-most (suc bits) n (suc k) few large =
    let rest = bit_length-most bits (n / 2) k (omega arith) (omega (arith, large, pow-suc 2 k)) in
    let positive = one-le-pow k 2 (omega arith) in
    let some_left : (n == 0) ≡ false = ground (arith, large, positive, pow-suc 2 k) in
    rw some_left (omega (arith, rest))

-- The height that `is_valid` computes for a tree with leaves, as many as fit into u32, is the least that
-- has room for them, one level holding twice as many nodes as the level above it and the top level one:
-- the lowest level has room for the leaves, and a height whose lowest level has room for
-- them is no smaller.
pub height_of_leaves-least :
    (leaves height : ℕ)
    → 0 < leaves
    → leaves ≤ u32_max
    → leaves ≤ 2 ^ height
    → (leaves ≤ 2 ^ (height_of_leaves leaves - 1)) × (height_of_leaves leaves ≤ height + 1)
unfolding height_of_leaves
height_of_leaves-least leaves height some_leaves fits room =
    let enough = bit_length-enough 32 (leaves - 1) (omega (arith, fits)) in
    let least = bit_length-least 32 (leaves - 1) height (omega (arith, some_leaves, room)) in
    let levels : height_of_leaves leaves - 1 ≡ bit_length 32 (leaves - 1) = omega arith in
    let grown : leaves ≤ 2 ^ bit_length 32 (leaves - 1) = omega (arith, enough) in
    (subst (λ h. leaves ≤ 2 ^ h) (sym levels) grown, omega (arith, least))
