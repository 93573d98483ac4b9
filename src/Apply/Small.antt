-- ===== src/Apply/Small.antt =====
-- flush.go, applyToLeafSmall: one message at a time is the replay of the messages on every key.
use fractaltree.Prelude.{◌≡◌, refl, ap, ◌∙◌, none, List, [], ◌∷◌, arith, All}
use fractaltree.Order.{Ord}
use fractaltree.Message.{Message, put, delete, delete_range, upsert, key_of}
use fractaltree.Message.Replay.{step, replay}
use fractaltree.Node.Entries.{
  lookup, put_entry, erase_entry, AllKeys, IsSorted, lookup-put_entry, lookup-erase_entry,
  put_entry-IsSorted, erase_entry-IsSorted, put_entry-AllKeys, erase_entry-AllKeys, lookup-congr,
}
use fractaltree.Node.LeafSearch.{
  leaf_insert_lem, leaf_delete_lem, leaf_search-lookup, set_value-put_entry,
}
use fractaltree.Apply.{Counters, apply_message, apply_to_leaf_small}

module _ {ℓ κ} {K : Type ℓ} {V : Type κ} ⦃o : Ord K⦄ where
  -- one message on a sorted entry list
  abbrev pub apply_entry : List (K × V) → Message K V → List (K × V)
  apply_entry es (put k v c) = put_entry es k v
  apply_entry es (delete k) = erase_entry es k
  apply_entry es (delete_range k e) = es
  apply_entry es (upsert k f) = put_entry es k (f (lookup es k))

  -- One message of `applyToLeafSmall` changes a sorted leaf as a sorted map changes.
  pub apply_message_lem :
      (es : List (K × V)) (m : Message K V) (c : Counters)
      → IsSorted es
      → (apply_message es m c).0 ≡ apply_entry es m
  unfolding apply_message
  apply_message_lem es (put k v counted) c s = ap (λ r. r.0) (leaf_insert_lem es k v s)
  apply_message_lem es (delete k) c s = ap (λ r. r.0) (leaf_delete_lem es k s)
  apply_message_lem es (delete_range k e) c s = refl
  apply_message_lem es (upsert k f) c s = ground (
    arith,
    leaf_search-lookup es k s,
    set_value-put_entry es k (f (lookup es k)) s,
    leaf_insert_lem es k (f none) s,
  )

  pub apply_entry-IsSorted :
      (es : List (K × V)) (m : Message K V) → IsSorted es → IsSorted (apply_entry es m)
  apply_entry-IsSorted es (put k v c) s = put_entry-IsSorted es k v s
  apply_entry-IsSorted es (delete k) s = erase_entry-IsSorted es k s
  apply_entry-IsSorted es (delete_range k e) s = s
  apply_entry-IsSorted es (upsert k f) s = put_entry-IsSorted es k (f (lookup es k)) s

  apply_entry-AllKeys :
      (P : K → Type 0) (es : List (K × V)) (m : Message K V)
      → P (key_of m)
      → AllKeys P es
      → AllKeys P (apply_entry es m)
  apply_entry-AllKeys P es (put k v c) h a = put_entry-AllKeys P es k v h a
  apply_entry-AllKeys P es (delete k) h a = erase_entry-AllKeys P es k a
  apply_entry-AllKeys P es (delete_range k e) h a = a
  apply_entry-AllKeys P es (upsert k f) h a = put_entry-AllKeys P es k (f (lookup es k)) h a

  pub lookup-apply_entry :
      (es : List (K × V)) (m : Message K V) (k : K)
      → IsSorted es
      → lookup (apply_entry es m) k ≡ step k m (lookup es k)
  lookup-apply_entry es (put j v c) k s = lookup-put_entry es j k v
  lookup-apply_entry es (delete j) k s = lookup-erase_entry es j k s
  lookup-apply_entry es (delete_range j e) k s = ground arith
  lookup-apply_entry es (upsert j f) k s =
      ground (arith, lookup-put_entry es j k (f (lookup es j)), lookup-congr es j k)

  -- Messages applied one by one leave a sorted leaf with their replay at every key, whatever the
  -- counters hold.
  pub lookup-apply_to_leaf_small :
      (es : List (K × V)) (ms : List (Message K V)) (c : Counters) (k : K)
      → IsSorted es
      → lookup (apply_to_leaf_small es ms c).0 k ≡ replay k ms (lookup es k)
  unfolding apply_to_leaf_small replay
  lookup-apply_to_leaf_small es [] c k s = refl
  lookup-apply_to_leaf_small es (m ∷ ms) c k s =
      lookup-apply_to_leaf_small (apply_message es m c).0 ms (apply_message es m c).1 k
        (rw (apply_message_lem es m c s) (apply_entry-IsSorted es m s))
      ∙ ap (replay k ms)
          (ap (λ x. lookup x k) (apply_message_lem es m c s) ∙ lookup-apply_entry es m k s)

  pub apply_to_leaf_small-IsSorted :
      (es : List (K × V)) (ms : List (Message K V)) (c : Counters)
      → IsSorted es
      → IsSorted (apply_to_leaf_small es ms c).0
  unfolding apply_to_leaf_small
  apply_to_leaf_small-IsSorted es [] c s = s
  apply_to_leaf_small-IsSorted es (m ∷ ms) c s =
      apply_to_leaf_small-IsSorted (apply_message es m c).0 ms (apply_message es m c).1
        (rw (apply_message_lem es m c s) (apply_entry-IsSorted es m s))

  pub apply_to_leaf_small-AllKeys :
      (P : K → Type 0) (es : List (K × V)) (ms : List (Message K V)) (c : Counters)
      → IsSorted es
      → AllKeys P es
      → All (λ m. P (key_of m)) ms
      → AllKeys P (apply_to_leaf_small es ms c).0
  unfolding apply_to_leaf_small
  apply_to_leaf_small-AllKeys P es [] c s a b = a
  apply_to_leaf_small-AllKeys P es (m ∷ ms) c s a b =
      apply_to_leaf_small-AllKeys P (apply_message es m c).0 ms (apply_message es m c).1
        (rw (apply_message_lem es m c s) (apply_entry-IsSorted es m s))
        (rw (apply_message_lem es m c s) (apply_entry-AllKeys P es m b.0 a)) b.1
