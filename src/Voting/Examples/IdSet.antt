-- ===== src/Voting/Examples/IdSet.antt =====
-- A set of ids that meets what the voting contract relies on: a list without repetitions.
use house_of_stake_contracts.Base.{
  ◌==◌, if◌then◌else◌, length, contains, ℕ, suc, ◌≡◌, true, false, not, ◌&&◌, ◌||◌, List, [], ◌∷◌,
  arith,
}
use house_of_stake_contracts.Voting.Contract.{IterableSet, Distinct}

unfoldable pub insert_id : List ℕ → ℕ → List ℕ
insert_id xs i = if contains xs i then xs else i ∷ xs

unfoldable pub remove_id : List ℕ → ℕ → List ℕ
remove_id [] i = []
remove_id (x ∷ xs) i = if x == i then xs else x ∷ remove_id xs i

pub contains-insert_id :
    (xs : List ℕ) (i j : ℕ) → contains (insert_id xs i) j ≡ (j == i || contains xs j)
unfolding insert_id
contains-insert_id xs i j = ground arith

pub contains-remove_id :
    (xs : List ℕ) (i j : ℕ)
    → Distinct xs
    → contains (remove_id xs i) j ≡ (not (j == i) && contains xs j)
unfolding remove_id
contains-remove_id [] i j h = ground arith
contains-remove_id (x ∷ xs) i j h = ground (arith, contains-remove_id xs i j h.1)

pub insert_id-Distinct : (xs : List ℕ) (i : ℕ) → Distinct xs → Distinct (insert_id xs i)
unfolding insert_id
insert_id-Distinct xs i h = ground arith

pub remove_id-Distinct : (xs : List ℕ) (i : ℕ) → Distinct xs → Distinct (remove_id xs i)
unfolding remove_id
remove_id-Distinct [] i h = tt
remove_id-Distinct (x ∷ xs) i h =
    ground (arith, remove_id-Distinct xs i h.1, contains-remove_id xs i x h.1)

pub length-insert_id :
    (xs : List ℕ) (i : ℕ) → contains xs i ≡ false → length (insert_id xs i) ≡ suc (length xs)
unfolding insert_id
length-insert_id xs i h = rw h

pub length-remove_id :
    (xs : List ℕ) (i : ℕ)
    → Distinct xs
    → contains xs i ≡ true
    → suc (length (remove_id xs i)) ≡ length xs
unfolding remove_id
length-remove_id [] i d h = ground arith
length-remove_id (x ∷ xs) i d h = ground (arith, length-remove_id xs i d.1)

abbrev pub id_set : IterableSet
id_set = record {
  insert = insert_id;
  remove = remove_id;
  contains-insert = contains-insert_id;
  contains-remove = contains-remove_id;
  insert-Distinct = insert_id-Distinct;
  remove-Distinct = remove_id-Distinct;
  length-insert = length-insert_id;
  length-remove = length-remove_id;
}
