-- ===== src/Merkle/Height.antt =====
-- Nodes of a tree by height and index: the ancestor of a node, its leftmost leaf, and the height at
-- which one node covers every leaf.
use house_of_stake_contracts.Base.{
  ◌==◌, Bool-cases, ℕ, zero, suc, ◌+◌, ◌-◌, ◌*◌, ◌/◌, ◌^◌, ◌≤◌, ◌<◌, ◌≡◌, refl, ◌∙◌, ◌⊎◌, inl, inr,
  arith, false,
}
use native.Mathlib.Nat.{pow-suc}
use house_of_stake_contracts.Merkle.{bit_length, height_of_leaves}
use house_of_stake_contracts.Merkle.Tree.{tree_height}

-- The ancestor of the node with an index, some levels up.
unfoldable pub halve : ℕ → ℕ → ℕ
halve zero index = index
halve (suc levels) index = halve levels (index / 2)

-- The leftmost leaf below a node.
unfoldable pub leftmost : ℕ → ℕ → ℕ
leftmost zero index = index
leftmost (suc height) index = leftmost height (2 * index)

pub leftmost_mono : (h i j : ℕ) → i ≤ j → leftmost h i ≤ leftmost h j
unfolding leftmost
leftmost_mono zero i j le = le
leftmost_mono (suc h) i j le = leftmost_mono h (2 * i) (2 * j) (omega arith)

pub leftmost-half : (h i : ℕ) → leftmost (suc h) (i / 2) ≤ leftmost h i
unfolding leftmost
leftmost-half h i = leftmost_mono h (2 * (i / 2)) i (omega arith)

halve_outer : (h i : ℕ) → halve (suc h) i ≡ halve h i / 2
unfolding halve
halve_outer zero i = refl
halve_outer (suc h) i = halve_outer h (i / 2)

pub halve-leftmost : (h i : ℕ) → halve h (leftmost h i) ≡ i
unfolding leftmost
halve-leftmost zero i = unfold halve in refl
halve-leftmost (suc h) i =
    halve_outer h (leftmost h (2 * i)) ∙ omega (arith, halve-leftmost h (2 * i))

pub halve_mono : (h i j : ℕ) → i ≤ j → halve h i ≤ halve h j
unfolding halve
halve_mono zero i j le = le
halve_mono (suc h) i j le = halve_mono h (i / 2) (j / 2) (omega arith)

-- So many levels take every index up to n to 0.
pub halve-bit_length : (bits n i : ℕ) → n < 2 ^ bits → i ≤ n → halve (bit_length bits n) i ≡ 0
unfolding halve bit_length
halve-bit_length zero n i small le = omega arith
halve-bit_length (suc bits) n i small le = elim (Bool-cases (n == 0)) [
  | inl e ↦ rw e (ground arith)
  | inr e ↦
      rw e (halve-bit_length bits (n / 2) (i / 2) (omega (arith, pow-suc 2 bits)) (omega arith))
]

pub bit_length-zero : (bits : ℕ) → bit_length bits 0 ≡ 0
unfolding bit_length
bit_length-zero zero = refl
bit_length-zero (suc bits) = refl

bit_length_steps :
    (bits n m : ℕ)
    → (m ≡ n) ⊎ (m ≡ n + 1)
    → (bit_length bits n ≤ bit_length bits m) × (bit_length bits m ≤ bit_length bits n + 1)
unfolding bit_length
bit_length_steps zero n m step = omega arith
bit_length_steps (suc bits) n m step =
    ground (arith, bit_length_steps bits (n / 2) (m / 2) (omega arith), bit_length-zero bits)

-- The height of a tree with a leaf.
pub tree_height-suc : (n : ℕ) → tree_height (suc n) ≡ suc (bit_length 32 n)
unfolding tree_height height_of_leaves
tree_height-suc n =
    let e : suc n - 1 ≡ n = omega arith in
    let positive : (suc n == 0) ≡ false = ground arith in rw (positive, e)

-- One more leaf adds one level at most.
pub bit_length-suc : (bits n : ℕ) → bit_length bits (suc n) ≤ bit_length bits n + 1
bit_length-suc bits n = (bit_length_steps bits n (suc n) (inr (omega arith))).1
