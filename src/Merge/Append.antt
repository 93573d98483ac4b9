-- ===== src/Merge/Append.antt =====
-- flush.go, appendToLeaf: a batch above every key of the leaf goes behind them.
use fractaltree.Prelude.{
  ◌≡◌, refl, sym, ◌∙◌, none, some, List, [], ◌∷◌, ◌++◌, append-nil, arith, All, All-append,
  append_assoc,
}
use fractaltree.Order.{Ord, ◌≺◌}
use fractaltree.Message.{Message, Zero, put, delete, delete_range, upsert, key_of}
use fractaltree.Message.Replay.{replay, replay-above, lt-All-trans}
use fractaltree.Node.Entries.{lookup, AllKeys, IsSorted}
use fractaltree.Merge.{entry_of, append_to_leaf}
use fractaltree.Merge.Puts.{IsStrict, IsPut}

module _ {ℓ κ} {K : Type ℓ} {V : Type κ} ⦃o : Ord K⦄ where
  -- every key of the leaf is below every message
  abbrev pub IsBefore : List (K × V) → List (Message K V) → Type 0
  IsBefore es ms = All (λ e. All (λ m. e.0 ≺ key_of m) ms) es

module _ {ℓ κ} {K : Type ℓ} {V : Type κ} ⦃z : Zero V⦄ ⦃o : Ord K⦄ where
  abbrev entries : List (Message K V) → List (K × V)
  entries [] = []
  entries (m ∷ ms) = entry_of m ∷ entries ms

  append-entries :
      (es : List (K × V)) (ms : List (Message K V)) → append_to_leaf es ms ≡ es ++ entries ms
  unfolding append_to_leaf
  append-entries es [] = sym (append-nil es)
  append-entries es (m ∷ ms) =
      append-entries (es ++ entry_of m ∷ []) ms ∙ append_assoc es (entry_of m ∷ []) (entries ms)

  entries-AllKeys :
      (P : K → Type 0) (ms : List (Message K V))
      → All (λ m. P (key_of m)) ms
      → AllKeys P (entries ms)
  entries-AllKeys P [] a = tt
  entries-AllKeys P (m ∷ ms) a = (a.0, entries-AllKeys P ms a.1)

  entries-IsSorted : (ms : List (Message K V)) → IsStrict ms → IsSorted (entries ms)
  entries-IsSorted [] s = tt
  entries-IsSorted (m ∷ ms) s =
      (entries-AllKeys (λ b. key_of m ≺ b) ms s.0, entries-IsSorted ms s.1)

  lookup-entries :
      (ms : List (Message K V)) (k : K)
      → IsStrict ms
      → All IsPut ms
      → lookup (entries ms) k ≡ replay k ms none
  unfolding lookup replay
  lookup-entries [] k s p = refl
  lookup-entries (put j v c ∷ ms) k s p = ground (
    arith,
    lookup-entries ms k s.1 p.1,
    replay-above k ms (some v),
    replay-above k ms none,
    lt-All-trans k j ms,
    o.eq_sym j k,
    o.lt_of_gt j k,
  )
  lookup-entries (delete j ∷ ms) k s p = absurd p.0
  lookup-entries (delete_range j e ∷ ms) k s p = absurd p.0
  lookup-entries (upsert j f ∷ ms) k s p = absurd p.0

  lookup-append :
      (es : List (K × V)) (ms : List (Message K V)) (k : K)
      → IsStrict ms
      → All IsPut ms
      → IsBefore es ms
      → lookup (es ++ entries ms) k ≡ replay k ms (lookup es k)
  unfolding lookup
  lookup-append [] ms k s p b = lookup-entries ms k s p
  lookup-append ((a, w) ∷ es) ms k s p b = ground (
    arith,
    lookup-append es ms k s p b.1,
    replay-above k ms (some w),
    replay-above k ms none,
    lt-All-trans k a ms,
    o.eq_sym a k,
    o.lt_of_gt a k,
  )

  append-IsSorted :
      (es : List (K × V)) (ms : List (Message K V))
      → IsSorted es
      → IsStrict ms
      → IsBefore es ms
      → IsSorted (es ++ entries ms)
  append-IsSorted [] ms s t b = entries-IsSorted ms t
  append-IsSorted ((a, w) ∷ es) ms s t b = (
    All-append (λ e. a ≺ e.0) es (entries ms) s.0 (entries-AllKeys (λ x. a ≺ x) ms b.0),
    append-IsSorted es ms s.1 t b.1,
  )

  -- After `appendToLeaf` of a strictly ascending batch of puts above every key of the leaf, the
  -- leaf holds the replay of the batch at every key.
  pub lookup-append_to_leaf :
      (es : List (K × V)) (ms : List (Message K V)) (k : K)
      → IsStrict ms
      → All IsPut ms
      → IsBefore es ms
      → lookup (append_to_leaf es ms) k ≡ replay k ms (lookup es k)
  lookup-append_to_leaf es ms k s p b = rw (append-entries es ms) (lookup-append es ms k s p b)

  pub append_to_leaf-IsSorted :
      (es : List (K × V)) (ms : List (Message K V))
      → IsSorted es
      → IsStrict ms
      → IsBefore es ms
      → IsSorted (append_to_leaf es ms)
  append_to_leaf-IsSorted es ms s t b = rw (append-entries es ms) (append-IsSorted es ms s t b)

  pub append_to_leaf-AllKeys :
      (P : K → Type 0) (es : List (K × V)) (ms : List (Message K V))
      → AllKeys P es
      → All (λ m. P (key_of m)) ms
      → AllKeys P (append_to_leaf es ms)
  append_to_leaf-AllKeys P es ms a b =
      rw (append-entries es ms) (All-append (λ e. P e.0) es (entries ms) a (entries-AllKeys P ms b))
