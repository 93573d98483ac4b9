-- ===== src/Programs/Concurrent/Laws.antt =====
-- examples/concurrent/main.go: what the tree holds when all goroutines are done, in whatever order they ran.
use Prim.Native.Nat.{◌*◌}
use mathlib.Core.Option.{some-injective}
use native.Mathlib.Nat.{zero-mul, suc-mul}
use fractaltree.Prelude.{
  ℕ, zero, suc, ◌+◌, ◌≡◌, refl, ap, ◌∙◌, ◌&&◌, Option, none, some, List, [], ◌∷◌, arith, All,
  if◌then◌else◌, ltb, leb, ◌==◌, Option-cases, inl, inr,
}
use fractaltree.Order.{nat_ord}
use fractaltree.Message.{Zero}
use fractaltree.Flush.{TreeParams}
use fractaltree.Ordered.{IsOrdered, eval}
use fractaltree.Node.Entries.{lookup}
use fractaltree.Tree.{new, get}
use fractaltree.Tree.Laws.{IsValid, get-eval, update}
use fractaltree.Client.{
  Op, put_op, delete_op, upsert_op, absent_op, get_op, contains_op, clear_op, run, run_map,
}
use fractaltree.Client.Refines.{run-run_map}
use fractaltree.Count.{total}
use fractaltree.Count.Buckets.{total-append}
use fractaltree.Programs.Concurrent.{
  writer_calls, reader_calls, writers, readers, goroutines, next_call, interleave,
}

module _ {ℓ} {A : Type ℓ} (w : A → ℕ) where
  abbrev all_calls : List (List A) → ℕ
  all_calls gs = total (total w) gs

  next_call-total :
      (gs : List (List A)) (i : ℕ) (a : A) (rest : List (List A))
      → next_call gs i ≡ some (a, rest)
      → w a + all_calls rest ≡ all_calls gs
  next_call-total [] i a rest e = cc
  next_call-total ([] ∷ gs) zero a rest e = cc
  next_call-total ((b ∷ g) ∷ gs) zero a rest e =
      let same = some-injective (b, g ∷ gs) (a, rest) e in
      omega (arith, ap (λ r. w r.0) same, ap (λ r. all_calls r.1) same)
  next_call-total (g ∷ gs) (suc i) a rest e = elim (Option-cases (next_call gs i)) [
    | inl q ↦ ground (arith, q, e)
    | inr ((b, left), q) ↦
        let same = some-injective (b, g ∷ left) (a, rest) (rw q at e) in
        omega
          (arith, next_call-total gs i b left q, ap (λ r. w r.0) same, ap (λ r. all_calls r.1) same)
  ]

  -- a schedule neither loses a call nor makes one
  interleave-total :
      (schedule : List ℕ) (gs : List (List A))
      → total w (interleave schedule gs).0 + all_calls (interleave schedule gs).1 ≡ all_calls gs
  interleave-total [] gs = omega arith
  interleave-total (i ∷ schedule) gs = elim (Option-cases (next_call gs i)) [
    | inl q ↦ rw (q, interleave, total) (interleave-total schedule gs)
    | inr ((b, left), q) ↦
        rw (q, interleave, total)
          (omega (arith, interleave-total schedule left, next_call-total gs i b left q))
  ]

-- the calls that are not a write of a number under itself, nor a read
abbrev strange : Op ℕ ℕ → ℕ
strange (put_op x v) = if x == v then 0 else 1
strange (get_op x) = 0
strange (delete_op x) = 1
strange (upsert_op x f) = 1
strange (absent_op x v) = 1
strange (contains_op x) = 1
strange clear_op = 1

abbrev puts_of : ℕ → Op ℕ ℕ → ℕ
puts_of k (put_op x v) = if x == k then 1 else 0
puts_of k (get_op x) = 0
puts_of k (delete_op x) = 0
puts_of k (upsert_op x f) = 0
puts_of k (absent_op x v) = 0
puts_of k (contains_op x) = 0
puts_of k clear_op = 0

module _ ⦃z : Zero ℕ⦄ where
  run_map-puts :
      (ops : List (Op ℕ ℕ)) (g : ℕ → Option ℕ) (k : ℕ)
      → total strange ops ≡ 0
      → (run_map ops g).0 k ≡ (if ltb 0 (total (puts_of k) ops) then some k else g k)
  unfolding nat_ord
  run_map-puts [] g k h = refl
  run_map-puts (put_op x v ∷ ops) g k h = ground (arith, run_map-puts ops (update g x (some v)) k)
  run_map-puts (get_op x ∷ ops) g k h = ground (arith, run_map-puts ops g k)
  run_map-puts (delete_op x ∷ ops) g k h = absurd (omega arith)
  run_map-puts (upsert_op x f ∷ ops) g k h = absurd (omega arith)
  run_map-puts (absent_op x v ∷ ops) g k h = absurd (omega arith)
  run_map-puts (contains_op x ∷ ops) g k h = absurd (omega arith)
  run_map-puts (clear_op ∷ ops) g k h = absurd (omega arith)

writer_puts :
    (base i n k : ℕ)
    → (total strange (writer_calls base i n) ≡ 0)
      × (total (puts_of k) (writer_calls base i n)
          ≡ (if leb (base + i) k && ltb k (base + i + n) then 1 else 0))
writer_puts base i zero k = (refl, ground arith)
writer_puts base i (suc n) k =
    let r = writer_puts base (suc i) n k in (ground (arith, r.0), ground (arith, r.1))

reader_puts :
    (i n k : ℕ)
    → (total strange (reader_calls i n) ≡ 0) × (total (puts_of k) (reader_calls i n) ≡ 0)
reader_puts i zero k = (refl, refl)
reader_puts i (suc n) k =
    let r = reader_puts (suc i) n k in (omega (arith, r.0), omega (arith, r.1))

writers_puts :
    (ops n k : ℕ)
    → (all_calls strange (writers ops n) ≡ 0)
      × (all_calls (puts_of k) (writers ops n) ≡ (if ltb k (n * ops) then 1 else 0))
writers_puts ops zero k = (refl, ground (arith, zero-mul ops))
writers_puts ops (suc n) k =
    let r = writers_puts ops n k in
    let one = writer_puts (n * ops) 0 ops k in
    (omega (arith, r.0, one.0), ground (arith, r.1, one.1, suc-mul n ops))

readers_puts :
    (ops n k : ℕ)
    → (all_calls strange (readers ops n) ≡ 0) × (all_calls (puts_of k) (readers ops n) ≡ 0)
readers_puts ops zero k = (refl, refl)
readers_puts ops (suc n) k =
    let r = readers_puts ops n k in
    let one = reader_puts 0 ops k in (omega (arith, r.0, one.0), omega (arith, r.1, one.1))

module _ {ℓ} {A : Type ℓ} where
  -- every goroutine has come to its end, which is what `Wait` waits for
  abbrev pub AllDone : List (List A) → Type ℓ
  AllDone gs = All (λ g. g ≡ []) gs

  done_calls : (w : A → ℕ) (gs : List (List A)) → AllDone gs → all_calls w gs ≡ 0
  done_calls w [] d = refl
  done_calls w (g ∷ gs) d = omega (arith, ap (total w) d.0, done_calls w gs d.1)

module _ ⦃z : Zero ℕ⦄ where
  -- Whatever the order in which the goroutines take their turns, when all are done a new tree that they
  -- started from holds each number that some writer had to put, under itself, and no other key.
  pub get-interleave :
      (params : TreeParams) (num_writers num_readers ops : ℕ) (schedule : List ℕ)
      → AllDone (interleave schedule (goroutines num_writers num_readers ops)).1
      → (k : ℕ)
      → get (run (interleave schedule (goroutines num_writers num_readers ops)).0 (new params)).0 k
        ≡ (if ltb k (num_writers * ops) then some k else none)
  unfolding new IsOrdered eval lookup
  get-interleave params num_writers num_readers ops schedule d k =
      let gs = goroutines num_writers num_readers ops in
      let (calls, left) = interleave schedule gs in
      let valid : IsValid {K = ℕ} {V = ℕ} (new params) = (tt, tt) in
      let start : get {V = ℕ} (new params) k ≡ none = ap (λ g. g k) (get-eval (new params) valid) in
      let split = λ (w : Op ℕ ℕ → ℕ).
        total-append (total w) (writers ops num_writers) (readers ops num_readers) in
      let wrote = writers_puts ops num_writers k in
      let seen = readers_puts ops num_readers k in
      ap (λ g. g k) (run-run_map calls (new params) valid).1
      ∙ run_map-puts calls (get (new params)) k (
          omega (
            arith,
            interleave-total strange schedule gs,
            done_calls strange left d,
            split strange,
            wrote.0,
            seen.0,
          ))
      ∙ ground (
        arith,
        interleave-total (puts_of k) schedule gs,
        done_calls (puts_of k) left d,
        split (puts_of k),
        wrote.1,
        seen.1,
        start,
      )
