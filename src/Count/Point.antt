-- ===== src/Count/Point.antt =====
-- tree.go, putLocked, Delete, Upsert, PutIfAbsent and Clear: each keeps `size` and `pendingDeletes` exact.
use fractaltree.Prelude.{
  ◌≡◌, refl, Bool, true, false, none, List, [], ◌∷◌, arith, if◌then◌else◌, is_some, Bool-cases, inl,
  inr,
}
use fractaltree.Prelude.Int.{pos, ◌-ℤ◌, int_laws, +ℤ_parts, -ℤ_parts}
use fractaltree.Order.{Ord}
use fractaltree.Message.{Message, Zero, UpsertFn, put, delete, upsert}
use fractaltree.Message.Replay.{IsPoint}
use fractaltree.Node.{Node, leaf, internal, Children, append_to_buffer, leaf_search}
use fractaltree.Node.Entries.{lookup, put_entry, erase_entry}
use fractaltree.Node.LeafSearch.{
  leaf_insert_lem, leaf_delete_lem, leaf_search-lookup, set_value-put_entry,
}
use fractaltree.Read.Get.{get_from_node_lem}
use fractaltree.Ordered.{IsOrdered, eval}
use fractaltree.Ordered.Congr.{eval-congr}
use fractaltree.Apply.{Counters, value_at}
use fractaltree.Flush.{TreeParams}
use fractaltree.Tree.{
  add_size, count_delete, write_message, is_new_key, put_root, delete_root, upsert_root,
}
use fractaltree.Tree.Buffer.{append-Holds}
use fractaltree.Tree.Laws.{leaf_order, put_entry-Holds}
use fractaltree.Count.{counted, deleting, hit, hits}
use fractaltree.Count.Leaf.{Tracks, length-put_entry, length-erase_entry}
use fractaltree.Count.Writes.{
  IsExact, leaf-IsExact, split_full_leaf-IsExact, append-IsExact, flush_full_root-IsExact,
}

module _ {ℓ κ} {K : Type ℓ} {V : Type κ} ⦃z : Zero V⦄ ⦃o : Ord K⦄ (params : TreeParams) where
  pub write_message-IsExact :
      (ps : List K) (cs : Children K V) (buf : List (Message K V)) (s : Bool) (m : Message K V)
      (c c' : Counters)
      → IsOrdered none none (internal ps cs buf s)
      → IsPoint m
      → ((k : K) → hit k m (eval (internal ps cs buf s) k) ≡ true)
      → Tracks 0 0 (counted m) (deleting m) c c'
      → IsExact (internal ps cs buf s) c
      → IsExact (write_message params ps cs buf m c').0 (write_message params ps cs buf m c').1
  unfolding write_message append_to_buffer hits
  write_message-IsExact ps cs buf s m c c' a p q t h =
      let b = append_to_buffer buf m in
      flush_full_root-IsExact params ps cs b c' (append-Holds ps cs buf s m a p).ordered (
        append-IsExact ps cs buf (m ∷ []) s b.1 c c' (λ k. ground (arith, q k))
          (record { size = omega (arith, t.size); deletes = omega (arith, t.deletes) }) h)

  put_leaf-IsExact :
      (es : List (K × V)) (c : Counters) (k : K) (v : V) (known_new : Bool)
      → IsOrdered none none (leaf es)
      → IsExact (leaf es) c
      → IsExact
          (put_root params (leaf es) c k v known_new).0
          (put_root params (leaf es) c k v known_new).1
  put_leaf-IsExact es c k v known_new a h =
      let s = leaf_order es a in
      let size = length-put_entry es k v s in
      let ordered = (put_entry-Holds es k v a).ordered in
      rw (leaf_insert_lem es k v s) (elim (Bool-cases (is_some (lookup es k))) [
        | inl e ↦ rw e (
            split_full_leaf-IsExact params (put_entry es k v) c ordered (
              leaf-IsExact es (put_entry es k v) c c
                (record { size = ground (arith, size); deletes = omega arith }) h))
        | inr e ↦ rw e (
            split_full_leaf-IsExact params (put_entry es k v) (add_size c (pos 1)) ordered (
              leaf-IsExact es (put_entry es k v) c (add_size c (pos 1))
                (record {
                  size = ground (arith, size, +ℤ_parts c.size (pos 1));
                  deletes = omega arith;
                })
                h))
      ])

  put_counter_step :
      (k : K) (v : V) (c : Counters) (is_new : Bool)
      → Tracks 0 0
          (counted (put k v is_new))
          (deleting (put k v is_new))
          c
          (if is_new then add_size c (pos 1) else c)
  put_counter_step k v c true = record { size = omega int_laws; deletes = omega arith }
  put_counter_step k v c false = record { size = omega arith; deletes = omega arith }

  pub put_root-IsExact :
      (n : Node K V) (c : Counters) (k : K) (v : V) (known_new : Bool)
      → IsOrdered none none n
      → IsExact n c
      → IsExact (put_root params n c k v known_new).0 (put_root params n c k v known_new).1
  put_root-IsExact (leaf es) c k v known_new a h = put_leaf-IsExact es c k v known_new a h
  put_root-IsExact (internal ps cs buf s) c k v known_new a h =
      let is_new = is_new_key (internal ps cs buf s) c k known_new in
      write_message-IsExact ps cs buf s (put k v is_new) c
        (if is_new then add_size c (pos 1) else c) a tt (λ j. refl) (put_counter_step k v c is_new)
        h

  delete_leaf-IsExact :
      (es : List (K × V)) (c : Counters) (k : K)
      → IsOrdered none none (leaf es)
      → IsExact (leaf es) c
      → IsExact (delete_root params (leaf es) c k).0.0 (delete_root params (leaf es) c k).0.1
  delete_leaf-IsExact es c k a h =
      let s = leaf_order es a in
      let size = length-erase_entry es k s in
      let erased = erase_entry es k in
      rw (leaf_delete_lem es k s) (elim (Bool-cases (is_some (lookup es k))) [
        | inl e ↦ rw e (
            leaf-IsExact es erased c (record c { size = c.size -ℤ pos 1 })
              (record {
                size = ground (arith, size, -ℤ_parts c.size (pos 1));
                deletes = omega arith;
              })
              h)
        | inr e ↦ rw e (
            leaf-IsExact es erased c c
              (record { size = ground (arith, size); deletes = omega arith }) h)
      ])

  delete_hits :
      (n : Node K V) (k j : K) → is_some (eval n k) ≡ true → hit j (delete k) (eval n j) ≡ true
  delete_hits n k j e = ground (arith, eval-congr n k j)

  pub delete_root-IsExact :
      (n : Node K V) (c : Counters) (k : K)
      → IsOrdered none none n
      → IsExact n c
      → IsExact (delete_root params n c k).0.0 (delete_root params n c k).0.1
  delete_root-IsExact (leaf es) c k a h = delete_leaf-IsExact es c k a h
  delete_root-IsExact (internal ps cs buf s) c k a h =
      let n = internal ps cs buf s in
      rw (get_from_node_lem n k none none a) (elim (Bool-cases (is_some (eval n k))) [
        | inl e ↦ rw e (
            write_message-IsExact ps cs buf s (delete k) c (count_delete c) a tt
              (λ j. delete_hits n k j e)
              (record { size = omega int_laws; deletes = omega int_laws }) h)
        | inr e ↦ rw e h
      ])

  upsert_leaf-IsExact :
      (es : List (K × V)) (c : Counters) (k : K) (f : UpsertFn V)
      → IsOrdered none none (leaf es)
      → IsExact (leaf es) c
      → IsExact (upsert_root params (leaf es) c k f).0 (upsert_root params (leaf es) c k f).1
  upsert_leaf-IsExact es c k f a h =
      let s = leaf_order es a in
      let found = leaf_search-lookup es k s in
      let w = f (value_at es (leaf_search es k).0) in
      elim (Bool-cases (leaf_search es k).1) [
        | inl e ↦
            rw (e, set_value-put_entry es k w s e)
              (split_full_leaf-IsExact params (put_entry es k w) c
                (put_entry-Holds es k w a).ordered
                (leaf-IsExact es (put_entry es k w) c c
                  (record {
                    size = ground (arith, found.0, length-put_entry es k w s);
                    deletes = omega arith;
                  })
                  h))
        | inr e ↦
            rw (e, leaf_insert_lem es k (f none) s)
              (split_full_leaf-IsExact params (put_entry es k (f none)) (add_size c (pos 1))
                (put_entry-Holds es k (f none) a).ordered
                (leaf-IsExact es (put_entry es k (f none)) c (add_size c (pos 1))
                  (record {
                    size =
                        ground (
                          arith,
                          found.0,
                          length-put_entry es k (f none) s,
                          +ℤ_parts c.size (pos 1),
                        );
                    deletes = omega arith;
                  })
                  h))
      ]

  pub upsert_root-IsExact :
      (n : Node K V) (c : Counters) (k : K) (f : UpsertFn V)
      → IsOrdered none none n
      → IsExact n c
      → IsExact (upsert_root params n c k f).0 (upsert_root params n c k f).1
  upsert_root-IsExact (leaf es) c k f a h = upsert_leaf-IsExact es c k f a h
  upsert_root-IsExact (internal ps cs buf s) c k f a h =
      write_message-IsExact ps cs buf s (upsert k f) c c a tt (λ j. refl)
        (record { size = omega arith; deletes = omega arith }) h
