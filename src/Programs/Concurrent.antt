-- ===== src/Programs/Concurrent.antt =====
-- examples/concurrent/main.go: goroutines that write to and read from one tree. A method holds the tree's
-- mutex from its start to its end, so that what the goroutines do is one list of calls, in some order that
-- keeps the order of each goroutine; the order is the schedule, which names the goroutine that is next.
pub mod Laws
use Prim.Native.Nat.{◌*◌}
use fractaltree.Prelude.{ℕ, zero, suc, ◌+◌, Option, none, some, List, [], ◌∷◌, ◌++◌}
use fractaltree.Order.{nat_ord}
use fractaltree.Client.{Op, put_op, get_op}

-- the loop of a writer from `i` on, for that many rounds
abbrev pub writer_calls : ℕ → ℕ → ℕ → List (Op ℕ ℕ)
writer_calls base i zero = []
writer_calls base i (suc n) = put_op (base + i) (base + i) ∷ writer_calls base (suc i) n

abbrev pub reader_calls : ℕ → ℕ → List (Op ℕ ℕ)
reader_calls i zero = []
reader_calls i (suc n) = get_op i ∷ reader_calls (suc i) n

-- the goroutines that the loop over `numWriters` starts, the last one first
abbrev pub writers : ℕ → ℕ → List (List (Op ℕ ℕ))
writers ops zero = []
writers ops (suc w) = writer_calls (w * ops) 0 ops ∷ writers ops w

abbrev pub readers : ℕ → ℕ → List (List (Op ℕ ℕ))
readers ops zero = []
readers ops (suc r) = reader_calls 0 ops ∷ readers ops r

abbrev pub goroutines : ℕ → ℕ → ℕ → List (List (Op ℕ ℕ))
goroutines num_writers num_readers ops = writers ops num_writers ++ readers ops num_readers

module _ {ℓ} {A : Type ℓ} where
  -- the next call of a goroutine, if it is still running
  abbrev pub next_call : List (List A) → ℕ → Option (A × List (List A))
  next_call [] i = none
  next_call (g ∷ gs) zero = elim g [ [] ↦ none | a ∷ rest ↦ some (a, rest ∷ gs) ]
  next_call (g ∷ gs) (suc i) = elim (next_call gs i) [
    | none ↦ none
    | some (a, rest) ↦ some (a, g ∷ rest)
  ]

  -- the calls in the order of the schedule, and what the goroutines have left to do
  abbrev pub interleave : List ℕ → List (List A) → List A × List (List A)
  interleave [] gs = ([], gs)
  interleave (i ∷ schedule) gs = elim (next_call gs i) [
    | none ↦ interleave schedule gs
    | some (a, rest) ↦ let (calls, left) = interleave schedule rest in (a ∷ calls, left)
  ]
