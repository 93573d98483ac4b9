-- ===== src/Count/Quiet.antt =====
-- tree.go, Len against All: when no message is pending, the counter is the number of pairs that are listed.
use fractaltree.Prelude.{
  ℕ, ◌+◌, ◌≡◌, refl, ap, sym, ◌∙◌, false, Option, none, some, List, [], ◌∷◌, ◌++◌, arith,
  All-append, All-imp, length, length-append, append-nil, ◌≤◌, if◌then◌else◌,
}
use fractaltree.Prelude.Int.{pos, pos_part, neg_part, int_laws}
use fractaltree.Order.{Ord, ◌≺◌, is_le, lt_le_trans}
use fractaltree.Message.{Message, Zero, put, delete, delete_range, upsert}
use fractaltree.Message.Replay.{replay}
use fractaltree.Node.{Node, leaf, internal, Children, nil, cons}
use fractaltree.Node.Entries.{lookup, AllKeys, IsSorted, lookup-IsAbove}
use fractaltree.Node.Same.{SameEntries-of_lookup, length-SameEntries}
use fractaltree.Ordered.{InRange, InSpan, IsOrdered, AreOrdered, eval, eval_at}
use fractaltree.Ordered.Route.{IsAtLeast-trans, lt-IsLess}
use fractaltree.Iterator.{materialize_all}
use fractaltree.Iterator.Laws.{materialize_all_lem}
use fractaltree.Tree.{BeTree, new, len}
use fractaltree.Tree.Laws.{IsValid}
use fractaltree.Flush.{TreeParams}
use fractaltree.Client.Calls.{Call, run_calls, run_calls-AllPromised}
use fractaltree.Count.{
  total, tally, tally_children, none_each, one_each, counted, deleting, added, pending,
}
use fractaltree.Count.Totals.{total-one_each}
use fractaltree.Count.Calls.{IsExactTree, empty-IsExact, run_calls-IsExact}

module _ {ℓ κ} {K : Type ℓ} {V : Type κ} where
  -- how many messages are buffered below a node
  abbrev pub waiting : Node K V → ℕ
  waiting n = tally none_each (λ m. 1) n

  unfoldable mutual
    -- the entries of the leaves, from left to right
    leaf_entries : Node K V → List (K × V)
    leaf_entries (leaf es) = es
    leaf_entries (internal ps cs buf s) = child_entries cs

    child_entries : Children K V → List (K × V)
    child_entries nil = []
    child_entries (cons c cs) = leaf_entries c ++ child_entries cs

module _ {ℓ κ} {K : Type ℓ} {V : Type κ} ⦃o : Ord K⦄ where
  -- lists on the two sides of a pivot
  append-IsSorted :
      (lo hi : Option K) (p : K) (xs ys : List (K × V))
      → AllKeys (InRange lo (some p)) xs
      → AllKeys (InRange (some p) hi) ys
      → IsSorted xs
      → IsSorted ys
      → IsSorted (xs ++ ys)
  append-IsSorted lo hi p [] ys a b s t = t
  append-IsSorted lo hi p ((x, v) ∷ xs) ys a b s t = (
    All-append (λ e. x ≺ e.0) xs ys s.0
        (All-imp (λ e. InRange (some p) hi e.0) (λ e. x ≺ e.0)
          (λ e r. lt_le_trans x p e.0 a.0.1 r.0) ys b),
    append-IsSorted lo hi p xs ys a.1 b s.1 t,
  )

  lookup_right :
      (hi : Option K) (p : K) (ys : List (K × V)) (k : K)
      → AllKeys (InRange (some p) hi) ys
      → is_le (o.cmp p k) ≡ false
      → lookup ys k ≡ none
  lookup_right hi p ys k b e = lookup-IsAbove ys k (
      All-imp (λ y. InRange (some p) hi y.0) (λ y. k ≺ y.0)
        (λ y r. lt_le_trans k p y.0 (ground (arith, o.lt_of_gt p k)) r.0) ys b)

  lookup-append :
      (lo hi : Option K) (p : K) (xs ys : List (K × V)) (k : K)
      → AllKeys (InRange lo (some p)) xs
      → AllKeys (InRange (some p) hi) ys
      → lookup (xs ++ ys) k ≡ (if is_le (o.cmp p k) then lookup ys k else lookup xs k)
  unfolding lookup
  lookup-append lo hi p [] ys k a b = ground (arith, lookup_right hi p ys k b)
  lookup-append lo hi p ((x, v) ∷ xs) ys k a b = ground (
    arith,
    lookup-append lo hi p xs ys k a.1 b,
    a.0.1,
    o.eq_left x k p,
    o.gt_of_lt k p,
    o.lt_of_gt x k,
    o.lt_trans k x p,
  )

  -- what the leaf entries of a node say of it
  record Lists (lo hi : Option K) (es : List (K × V)) (f : K → Option V) (count : ℕ)
      : Type (ℓ ⊔ κ) where
    keys : AllKeys (InRange lo hi) es
    sorted : IsSorted es
    value : (k : K) → lookup es k ≡ f k
    size : length es ≡ count

  append-Lists :
      (lo hi : Option K) (p : K) (ps : List K) (c : Node K V) (cs : Children K V)
      (xs ys : List (K × V)) (m n : ℕ)
      → InSpan lo hi p
      → Lists lo (some p) xs (eval c) m
      → Lists (some p) hi ys (eval_at ps cs) n
      → Lists lo hi (xs ++ ys) (eval_at (p ∷ ps) (cons c cs)) (m + n)
  unfolding eval
  append-Lists lo hi p ps c cs xs ys m n span a b = record {
    keys =
        All-append (λ e. InRange lo hi e.0) xs ys
          (All-imp (λ e. InRange lo (some p) e.0) (λ e. InRange lo hi e.0)
            (λ e r. (r.0, lt-IsLess hi e.0 p r.1 span.1)) xs a.keys)
          (All-imp (λ e. InRange (some p) hi e.0) (λ e. InRange lo hi e.0)
            (λ e r. (IsAtLeast-trans lo p e.0 span.0 r.0, r.1)) ys b.keys);
    sorted = append-IsSorted lo hi p xs ys a.keys b.keys a.sorted b.sorted;
    value = λ k. ground (arith, lookup-append lo hi p xs ys k a.keys b.keys, a.value k, b.value k);
    size = omega (arith, length-append xs ys, a.size, b.size);
  }

  mutual
    unfolding IsOrdered eval tally leaf_entries replay

    leaf_entries-Lists :
        (n : Node K V) (lo hi : Option K)
        → IsOrdered lo hi n
        → waiting n ≡ 0
        → Lists lo hi (leaf_entries n) (eval n) (added n)
    leaf_entries-Lists (leaf es) lo hi a w = record {
      keys = a.0;
      sorted = a.1;
      value = λ k. refl;
      size = sym (total-one_each es);
    }
    leaf_entries-Lists (internal ps cs (m ∷ ms) s) lo hi a w = absurd (omega arith)
    leaf_entries-Lists (internal ps cs [] s) lo hi a w =
        let r = child_entries-Lists cs ps lo hi a.2 (omega arith) in
        record { keys = r.keys; sorted = r.sorted; value = r.value; size = omega (arith, r.size) }

    child_entries-Lists :
        (cs : Children K V) (ps : List K) (lo hi : Option K)
        → AreOrdered lo hi ps cs
        → tally_children {K = K} {V = V} none_each (λ m. 1) cs ≡ 0
        → Lists lo hi (child_entries cs) (eval_at ps cs) (tally_children one_each counted cs)
    child_entries-Lists nil ps lo hi a w = absurd a
    child_entries-Lists (cons c (cons d cs)) [] lo hi a w = absurd a
    child_entries-Lists (cons c nil) [] lo hi a w =
        let r = leaf_entries-Lists c lo hi a (omega arith) in
        rw (append-nil (leaf_entries c)) (record {
          keys = r.keys;
          sorted = r.sorted;
          value = r.value;
          size = omega (arith, r.size);
        })
    child_entries-Lists (cons c cs) (p ∷ ps) lo hi a w =
        append-Lists lo hi p ps c cs (leaf_entries c) (child_entries cs) (added c)
          (tally_children one_each counted cs) a.0
          (leaf_entries-Lists c lo (some p) a.1 (omega arith))
          (child_entries-Lists cs ps (some p) hi a.2 (omega arith))

module _ {ℓ κ} {K : Type ℓ} {V : Type κ} where
  deleting-le-waiting : (ms : List (Message K V)) → total deleting ms ≤ total (λ m. 1) ms
  deleting-le-waiting [] = omega arith
  deleting-le-waiting (put k v c ∷ ms) = omega (arith, deleting-le-waiting ms)
  deleting-le-waiting (delete k ∷ ms) = omega (arith, deleting-le-waiting ms)
  deleting-le-waiting (delete_range k e ∷ ms) = omega (arith, deleting-le-waiting ms)
  deleting-le-waiting (upsert k f ∷ ms) = omega (arith, deleting-le-waiting ms)

  mutual
    unfolding tally

    pending-le-waiting : (n : Node K V) → pending n ≤ waiting n
    pending-le-waiting (leaf es) = omega arith
    pending-le-waiting (internal ps cs buf s) =
        omega (arith, deleting-le-waiting buf, children_pending-le-waiting cs)

    children_pending-le-waiting :
        (cs : Children K V)
        → tally_children none_each deleting cs ≤ tally_children none_each (λ m. 1) cs
    children_pending-le-waiting nil = omega arith
    children_pending-le-waiting (cons c cs) =
        omega (arith, pending-le-waiting c, children_pending-le-waiting cs)

module _ {ℓ κ} {K : Type ℓ} {V : Type κ} ⦃o : Ord K⦄ where
  len_quiet :
      (t : BeTree K V)
      → IsValid t
      → IsExactTree t
      → waiting t.root ≡ 0
      → len t ≡ pos (length (materialize_all t.root))
  unfolding len
  len_quiet t a h w =
      let l = leaf_entries-Lists t.root none none a w in
      let m = materialize_all_lem t.root none none a in
      let same = length-SameEntries (leaf_entries t.root) (materialize_all t.root) (
        SameEntries-of_lookup (leaf_entries t.root) (materialize_all t.root) l.sorted m.0
          (λ k. l.value k ∙ sym (m.1 k))) in
      omega (
        int_laws,
        ap pos_part h.count.size,
        ap neg_part h.count.size,
        pending-le-waiting t.root,
        same,
        l.size,
      )

module _ {ℓ κ} {K : Type ℓ} {V : Type κ} ⦃z : Zero V⦄ ⦃o : Ord K⦄ where
  -- After any calls on a new tree, of any methods but `Len` and `Close`, if no message is left in a
  -- buffer, `Len` is the number of pairs that an iteration over the whole tree lists.
  pub len-run_calls :
      (params : TreeParams) (calls : List (Call K V))
      → waiting (run_calls calls (new params)).0.root ≡ 0
      → len (run_calls calls (new params)).0
        ≡ pos (length (materialize_all (run_calls calls (new params)).0.root))
  unfolding new IsOrdered
  len-run_calls params calls w =
      let valid : IsValid {K = K} {V = V} (new params) = (tt, tt) in
      len_quiet (run_calls calls (new params)).0 (run_calls-AllPromised calls (new params) valid).0
        (run_calls-IsExact calls (new params) valid empty-IsExact) w
