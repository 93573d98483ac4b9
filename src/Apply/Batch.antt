-- ===== src/Apply/Batch.antt =====
-- flush.go, applyToLeaf: both paths replay the batch on every key of the sorted leaf.
use fractaltree.Prelude.{
  ℕ, ◌≡◌, refl, ap, sym, subst, ◌∙◌, true, false, Option, none, some, List, [], ◌∷◌, arith, All,
  Bool-cases, ◌==◌, ==_iff, inl, inr, length, leb,
}
use fractaltree.Order.{Ord, ◌≺◌, is_gt}
use fractaltree.Message.{Message, Zero, put, delete, delete_range, upsert, key_of}
use fractaltree.Message.Replay.{
  effect, step, replay, replay-above, replay-nil, IsPoint, lt-All-trans,
}
use fractaltree.Node.Entries.{lookup, AllKeys, IsSorted, lookup-congr}
use fractaltree.Node.LeafSearch.{leaf_search-lookup}
use fractaltree.Merge.{append_to_leaf, merge_leaf_puts, merge_leaf_with_deletes}
use fractaltree.Merge.Append.{
  IsBefore, lookup-append_to_leaf, append_to_leaf-IsSorted, append_to_leaf-AllKeys,
}
use fractaltree.Merge.Puts.{
  IsStrict, IsPut, lookup-merge_leaf_puts, merge_leaf_puts-IsSorted, merge_leaf_puts-AllKeys,
}
use fractaltree.Merge.Deletes.{
  IsPutOrDelete, lookup-merge_leaf_with_deletes, merge_leaf_with_deletes-IsSorted,
  merge_leaf_with_deletes-AllKeys,
}
use fractaltree.Apply.{
  Counters, fold_message, resolve_messages, resolve_upsert, resolve_upserts, count_deletes,
  last_entry, goes_after, merge_batch, apply_batch, apply_to_leaf, apply_to_leaf_small,
}
use fractaltree.Apply.Small.{
  lookup-apply_to_leaf_small, apply_to_leaf_small-IsSorted, apply_to_leaf_small-AllKeys,
}
use fractaltree.Apply.Resolve.{
  fold_message-key, fold_message-IsPoint, resolve_messages-All, replay-resolve_messages,
  resolve_messages-IsStrict,
}

module _ {ℓ κ} {K : Type ℓ} {V : Type κ} ⦃o : Ord K⦄ where
  resolve_upsert-key :
      (P : K → Type 0) (es : List (K × V)) (m : Message K V)
      → P (key_of m)
      → P (key_of (resolve_upsert es m))
  unfolding resolve_upsert
  resolve_upsert-key P es (put k v c) h = h
  resolve_upsert-key P es (delete k) h = h
  resolve_upsert-key P es (delete_range k e) h = h
  resolve_upsert-key P es (upsert k f) h = ground arith

  resolve_upserts-keys :
      (P : K → Type 0) (es : List (K × V)) (ms : List (Message K V))
      → All (λ m. P (key_of m)) ms
      → All (λ m. P (key_of m)) (resolve_upserts es ms)
  unfolding resolve_upserts
  resolve_upserts-keys P es [] a = tt
  resolve_upserts-keys P es (m ∷ ms) a =
      (resolve_upsert-key P es m a.0, resolve_upserts-keys P es ms a.1)

  resolve_upserts-IsStrict :
      (es : List (K × V)) (ms : List (Message K V)) → IsStrict ms → IsStrict (resolve_upserts es ms)
  unfolding resolve_upserts
  resolve_upserts-IsStrict es [] s = tt
  resolve_upserts-IsStrict es (m ∷ ms) s = (
    resolve_upserts-keys (λ x. key_of (resolve_upsert es m) ≺ x) es ms
        (resolve_upsert-key (λ j. All (λ x. j ≺ key_of x) ms) es m s.0),
    resolve_upserts-IsStrict es ms s.1,
  )

  resolve_upserts-IsPutOrDelete :
      (es : List (K × V)) (ms : List (Message K V))
      → All IsPoint ms
      → All IsPutOrDelete (resolve_upserts es ms)
  unfolding resolve_upserts
  resolve_upserts-IsPutOrDelete es [] a = tt
  resolve_upserts-IsPutOrDelete es (put k v c ∷ ms) a =
      (tt, resolve_upserts-IsPutOrDelete es ms a.1)
  resolve_upserts-IsPutOrDelete es (delete k ∷ ms) a = (tt, resolve_upserts-IsPutOrDelete es ms a.1)
  resolve_upserts-IsPutOrDelete es (delete_range k e ∷ ms) a = absurd a.0
  resolve_upserts-IsPutOrDelete es (upsert k f ∷ ms) a =
      ground (arith, resolve_upserts-IsPutOrDelete es ms a.1)

  step-resolve_upsert :
      (es : List (K × V)) (m : Message K V) (k : K)
      → IsSorted es
      → step k (resolve_upsert es m) (lookup es k) ≡ step k m (lookup es k)
  unfolding resolve_upsert
  step-resolve_upsert es (put j v c) k s = refl
  step-resolve_upsert es (delete j) k s = refl
  step-resolve_upsert es (delete_range j x) k s = refl
  step-resolve_upsert es (upsert j f) k s =
      ground (arith, leaf_search-lookup es j s, lookup-congr es j k)

  -- at most one message of a strict batch concerns a key
  replay-resolve_upserts :
      (es : List (K × V)) (ms : List (Message K V)) (k : K)
      → IsSorted es
      → IsStrict ms
      → replay k (resolve_upserts es ms) (lookup es k) ≡ replay k ms (lookup es k)
  unfolding resolve_upserts replay
  replay-resolve_upserts es [] k s t = refl
  replay-resolve_upserts es (m ∷ ms) k s t =
      ap (replay k (resolve_upserts es ms)) (step-resolve_upsert es m k s)
      ∙ ground (
        arith,
        replay-resolve_upserts es ms k s t.1,
        replay-above k ms (effect m (lookup es k)),
        replay-above k (resolve_upserts es ms) (effect m (lookup es k)),
        resolve_upserts-keys (λ x. k ≺ x) es ms,
        lt-All-trans k (key_of m) ms,
        o.eq_sym (key_of m) k,
      )

  -- a batch with no delete in it
  abbrev IsPutOrUpsert : Message K V → Type 0
  IsPutOrUpsert (put k v c) = Unit
  IsPutOrUpsert (upsert k f) = Unit
  IsPutOrUpsert _ = ⊥

  fold_message-IsPutOrUpsert :
      (r m : Message K V) → IsPutOrUpsert r → IsPutOrUpsert m → IsPutOrUpsert (fold_message r m)
  fold_message-IsPutOrUpsert r (put k v c) p q = tt
  fold_message-IsPutOrUpsert r (delete k) p q = q
  fold_message-IsPutOrUpsert r (delete_range k e) p q = p
  fold_message-IsPutOrUpsert (put j v c) (upsert k f) p q = tt
  fold_message-IsPutOrUpsert (delete j) (upsert k f) p q = absurd p
  fold_message-IsPutOrUpsert (delete_range j x) (upsert k f) p q = absurd p
  fold_message-IsPutOrUpsert (upsert j g) (upsert k f) p q = tt

  no_deletes :
      (ms : List (Message K V)) → count_deletes ms ≡ 0 → All IsPoint ms → All IsPutOrUpsert ms
  no_deletes [] e a = tt
  no_deletes (put k v true ∷ ms) e a = (tt, no_deletes ms e a.1)
  no_deletes (put k v false ∷ ms) e a = (tt, no_deletes ms e a.1)
  no_deletes (delete k ∷ ms) e a = absurd (omega arith)
  no_deletes (delete_range k x ∷ ms) e a = absurd a.0
  no_deletes (upsert k f ∷ ms) e a = (tt, no_deletes ms e a.1)

  resolve_upserts-IsPut :
      (es : List (K × V)) (ms : List (Message K V))
      → All IsPutOrUpsert ms
      → All IsPut (resolve_upserts es ms)
  unfolding resolve_upserts
  resolve_upserts-IsPut es [] a = tt
  resolve_upserts-IsPut es (put k v c ∷ ms) a = (tt, resolve_upserts-IsPut es ms a.1)
  resolve_upserts-IsPut es (delete k ∷ ms) a = absurd a.0
  resolve_upserts-IsPut es (delete_range k e ∷ ms) a = absurd a.0
  resolve_upserts-IsPut es (upsert k f ∷ ms) a = ground (arith, resolve_upserts-IsPut es ms a.1)

  last_entry-above :
      (es : List (K × V)) (l : K × V) (j : K)
      → IsSorted es
      → last_entry es ≡ some l
      → l.0 ≺ j
      → AllKeys (λ a. a ≺ j) es
  last_entry-above [] l j s e h = cc
  last_entry-above (a ∷ []) l j s e h = (ground arith, tt)
  last_entry-above (a ∷ b ∷ es) l j s e h =
      let rest = last_entry-above (b ∷ es) l j s.1 e h in (o.lt_trans a.0 b.0 j s.0.0 rest.0, rest)

  all_earlier :
      (es : List (K × V)) (m : Message K V) (ms : List (Message K V))
      → AllKeys (λ a. a ≺ key_of m) es
      → IsStrict (m ∷ ms)
      → IsBefore es (m ∷ ms)
  all_earlier [] m ms a s = tt
  all_earlier (e ∷ es) m ms a s =
      ((a.0, lt-All-trans e.0 (key_of m) ms (λ g. ground arith) s.0), all_earlier es m ms a.1 s)

  goes_after-IsBefore :
      (es : List (K × V)) (ms : List (Message K V))
      → IsSorted es
      → IsStrict ms
      → goes_after es ms ≡ true
      → IsBefore es ms
  goes_after-IsBefore es [] s t h = cc
  goes_after-IsBefore es (m ∷ ms) s t h = all_earlier es m ms (go (last_entry es) refl h) t
    where
      go :
          (l : Option (K × V))
          → last_entry es ≡ l
          → (elim l [ none ↦ false | some e ↦ is_gt (o.cmp (key_of m) e.0) ]) ≡ true
          → AllKeys (λ a. a ≺ key_of m) es
      go none e q = absurd (cc)
      go (some l) e q =
          last_entry-above es l (key_of m) s e (o.lt_of_gt (key_of m) l.0 (ground arith))

module _ {ℓ κ} {K : Type ℓ} {V : Type κ} ⦃z : Zero V⦄ ⦃o : Ord K⦄ where
  -- what a resolved batch meets before it is merged
  record IsResolved (es : List (K × V)) (ms : List (Message K V)) (num_deletes : ℕ) : Type 0 where
    sorted : IsSorted es
    strict : IsStrict ms
    point : All IsPutOrDelete ms
    puts : num_deletes ≡ 0 → All IsPut ms

  merge_batch-lem {μ} :
      (P : List (K × V) → Type μ) (es : List (K × V)) (ms : List (Message K V)) (n : ℕ)
      → (n ≡ 0 → goes_after es ms ≡ true → P (append_to_leaf es ms))
      → (n ≡ 0 → P (merge_leaf_puts es ms))
      → P (merge_leaf_with_deletes es ms)
      → P (merge_batch es ms n)
  unfolding merge_batch
  merge_batch-lem P es ms n f g h = elim (Bool-cases (n == 0)) [
    | inl z ↦ elim (Bool-cases (goes_after es ms)) [
      | inl e ↦ rw (z, e) (f ((==_iff n 0).0 z) e)
      | inr e ↦ rw (z, e) (g ((==_iff n 0).0 z))
    ]
    | inr z ↦ rw z h
  ]

  lookup-merge_batch :
      (es : List (K × V)) (ms : List (Message K V)) (n : ℕ) (k : K)
      → IsResolved es ms n
      → lookup (merge_batch es ms n) k ≡ replay k ms (lookup es k)
  lookup-merge_batch es ms n k r =
      merge_batch-lem (λ x. lookup x k ≡ replay k ms (lookup es k)) es ms n
        (λ e h.
          lookup-append_to_leaf es ms k r.strict (r.puts e)
            (goes_after-IsBefore es ms r.sorted r.strict h))
        (λ e. lookup-merge_leaf_puts es ms k r.sorted r.strict (r.puts e))
        (lookup-merge_leaf_with_deletes es ms k r.sorted r.strict r.point)

  merge_batch-IsSorted :
      (es : List (K × V)) (ms : List (Message K V)) (n : ℕ)
      → IsResolved es ms n
      → IsSorted (merge_batch es ms n)
  merge_batch-IsSorted es ms n r =
      merge_batch-lem IsSorted es ms n
        (λ e h.
          append_to_leaf-IsSorted es ms r.sorted r.strict
            (goes_after-IsBefore es ms r.sorted r.strict h))
        (λ e. merge_leaf_puts-IsSorted es ms r.sorted r.strict)
        (merge_leaf_with_deletes-IsSorted es ms r.sorted r.strict)

  resolved :
      (es : List (K × V)) (ms : List (Message K V))
      → IsSorted es
      → All IsPoint ms
      → IsResolved es (resolve_upserts es (resolve_messages ms)) (count_deletes ms)
  resolved es ms s a = record {
    sorted = s;
    strict = resolve_upserts-IsStrict es (resolve_messages ms) (resolve_messages-IsStrict ms);
    point =
        resolve_upserts-IsPutOrDelete es (resolve_messages ms)
          (resolve_messages-All IsPoint ms fold_message-IsPoint a);
    puts = λ e.
        resolve_upserts-IsPut es (resolve_messages ms)
          (resolve_messages-All IsPutOrUpsert ms fold_message-IsPutOrUpsert (no_deletes ms e a));
  }

  lookup-apply_batch :
      (es : List (K × V)) (ms : List (Message K V)) (c : Counters) (k : K)
      → IsSorted es
      → All IsPoint ms
      → lookup (apply_batch es ms c).0 k ≡ replay k ms (lookup es k)
  unfolding apply_batch
  lookup-apply_batch es ms c k s a =
      lookup-merge_batch es (resolve_upserts es (resolve_messages ms)) (count_deletes ms) k
        (resolved es ms s a)
      ∙ replay-resolve_upserts es (resolve_messages ms) k s (resolve_messages-IsStrict ms)
      ∙ replay-resolve_messages ms k (lookup es k) a

  apply_batch-IsSorted :
      (es : List (K × V)) (ms : List (Message K V)) (c : Counters)
      → IsSorted es
      → All IsPoint ms
      → IsSorted (apply_batch es ms c).0
  unfolding apply_batch
  apply_batch-IsSorted es ms c s a =
      merge_batch-IsSorted es (resolve_upserts es (resolve_messages ms)) (count_deletes ms)
        (resolved es ms s a)

  apply_batch-AllKeys :
      (P : K → Type 0) (es : List (K × V)) (ms : List (Message K V)) (c : Counters)
      → IsSorted es
      → All IsPoint ms
      → AllKeys P es
      → All (λ m. P (key_of m)) ms
      → AllKeys P (apply_batch es ms c).0
  unfolding apply_batch
  apply_batch-AllKeys P es ms c s a b d =
      let rs = resolve_upserts es (resolve_messages ms) in
      let r = resolved es ms s a in
      let keys =
        resolve_upserts-keys P es (resolve_messages ms)
          (resolve_messages-All (λ m. P (key_of m)) ms (fold_message-key P) d) in
      merge_batch-lem (AllKeys P) es rs (count_deletes ms)
        (λ e h. append_to_leaf-AllKeys P es rs b keys)
        (λ e. merge_leaf_puts-AllKeys P es rs s r.strict b keys)
        (merge_leaf_with_deletes-AllKeys P es rs s r.strict b keys)

  apply_to_leaf-lem {μ} :
      (P : List (K × V) → Type μ) (es : List (K × V)) (ms : List (Message K V)) (c : Counters)
      → (ms ≡ [] → P es)
      → P (apply_to_leaf_small es ms c).0
      → P (apply_batch es ms c).0
      → P (apply_to_leaf es ms c).0
  unfolding apply_to_leaf
  apply_to_leaf-lem P es [] c f g h = f refl
  apply_to_leaf-lem P es (m ∷ ms) c f g h = elim (Bool-cases (leb (length (m ∷ ms)) 3)) [
    | inl e ↦ rw e g
    | inr e ↦ rw e h
  ]

  -- A batch of puts, deletes and upserts that reaches a sorted leaf leaves it with the replay of
  -- the batch at every key, by the small path, the append path or either merge.
  pub lookup-apply_to_leaf :
      (es : List (K × V)) (ms : List (Message K V)) (c : Counters) (k : K)
      → IsSorted es
      → All IsPoint ms
      → lookup (apply_to_leaf es ms c).0 k ≡ replay k ms (lookup es k)
  lookup-apply_to_leaf es ms c k s a =
      apply_to_leaf-lem (λ x. lookup x k ≡ replay k ms (lookup es k)) es ms c
        (λ e.
          subst (λ l. lookup es k ≡ replay k l (lookup es k)) (sym e)
            (sym (replay-nil k (lookup es k))))
        (lookup-apply_to_leaf_small es ms c k s) (lookup-apply_batch es ms c k s a)

  -- A strictly sorted leaf stays strictly sorted under a batch of puts, deletes and upserts.
  pub apply_to_leaf-IsSorted :
      (es : List (K × V)) (ms : List (Message K V)) (c : Counters)
      → IsSorted es
      → All IsPoint ms
      → IsSorted (apply_to_leaf es ms c).0
  apply_to_leaf-IsSorted es ms c s a =
      apply_to_leaf-lem IsSorted es ms c (λ e. s) (apply_to_leaf_small-IsSorted es ms c s)
        (apply_batch-IsSorted es ms c s a)

  pub apply_to_leaf-AllKeys :
      (P : K → Type 0) (es : List (K × V)) (ms : List (Message K V)) (c : Counters)
      → IsSorted es
      → All IsPoint ms
      → AllKeys P es
      → All (λ m. P (key_of m)) ms
      → AllKeys P (apply_to_leaf es ms c).0
  apply_to_leaf-AllKeys P es ms c s a b d =
      apply_to_leaf-lem (AllKeys P) es ms c (λ e. b) (apply_to_leaf_small-AllKeys P es ms c s b d)
        (apply_batch-AllKeys P es ms c s a b d)
