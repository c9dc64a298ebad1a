-- ===== src/Base/History.antt =====
-- Histories of calls: the runtime keeps the new state of a call that returns, and drops that of one
-- that panics.
use Prim.Native.Nat.{ℕ, ◌≤◌}
use mathlib.Core.List.{List, [], ◌∷◌}
use house_of_stake_contracts.Base.Outcome.{Result, ok, panic, Ensures, Ensures-ok}

abbrev pub settle {ℓ} : {S : Type ℓ} → S → Result S → S
settle c (ok d) = d
settle c (panic e) = c

settle-keeps {ℓ κ} :
    {S : Type ℓ} (P : S → Type κ) (c : S) (r : Result S) → P c → Ensures P r → P (settle c r)
settle-keeps P c (ok d) h kept = Ensures-ok d kept
settle-keeps P c (panic e) h kept = h

module _ {S E C : Type 0} (perform : E → S → C → Result S) where
  unfoldable pub run : S → List (E × C) → S
  run c [] = c
  run c ((env, call) ∷ rest) = run (settle c (perform env c call)) rest

  -- What every call that returns keeps, a history keeps.
  pub run-keeps {κ} :
      (P : S → Type κ)
      → ((env : E) (c : S) (call : C) → P c → Ensures P (perform env c call))
      → (c : S) (calls : List (E × C)) → P c
      → P (run c calls)
  unfolding run
  run-keeps P step c [] h = h
  run-keeps P step c ((env, call) ∷ rest) h =
      run-keeps P step (settle c (perform env c call)) rest
        (settle-keeps P c (perform env c call) h (step env c call h))

  -- The calls come in order of time, from a time on.
  abbrev pub IsChronological : (E → ℕ) → ℕ → List (E × C) → Type 0
  IsChronological time now [] = Unit {0}
  IsChronological time now ((env, call) ∷ rest) =
      (now ≤ time env) × IsChronological time (time env) rest

  -- The time of the last call.
  abbrev pub end_time : (E → ℕ) → ℕ → List (E × C) → ℕ
  end_time time now [] = now
  end_time time now ((env, call) ∷ rest) = end_time time (time env) rest

  -- The same for what depends on the time, for calls in its order.
  pub run-keeps_in_time {κ} :
      (time : E → ℕ) (P : ℕ → S → Type κ)
      → ((now later : ℕ) (c : S) → now ≤ later → P now c → P later c)
      → ((env : E) (c : S) (call : C)
          → P (time env) c
          → Ensures (P (time env)) (perform env c call))
      → (now : ℕ) (c : S) (calls : List (E × C)) → P now c
      → IsChronological time now calls
      → P (end_time time now calls) (run c calls)
  unfolding run
  run-keeps_in_time time P wait step now c [] h order = h
  run-keeps_in_time time P wait step now c ((env, call) ∷ rest) h order =
      let later = wait now (time env) c order.0 h in
      run-keeps_in_time time P wait step (time env) (settle c (perform env c call)) rest
        (settle-keeps (P (time env)) c (perform env c call) later (step env c call later)) order.1
