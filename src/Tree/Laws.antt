-- ===== src/Tree/Laws.antt =====
-- tree.go against a map: every point operation keeps the tree ordered, and is the map's operation.
use mathlib.Core.Path.{fun_ext}
use fractaltree.Prelude.{
  ◌≡◌, refl, ap, sym, subst, ◌∙◌, Bool, true, false, not, eq, Option, none, some, List, [], ◌∷◌,
  arith, All, if◌then◌else◌, is_some, Bool-cases, inl, inr,
}
use fractaltree.Prelude.Int.{pos}
use fractaltree.Order.{Ord}
use fractaltree.Message.{Zero, UpsertFn, put, delete, upsert}
use fractaltree.Node.{Node, leaf, internal, leaf_search}
use fractaltree.Node.Entries.{
  lookup, put_entry, erase_entry, IsSorted, lookup-put_entry, lookup-erase_entry,
  put_entry-IsSorted, erase_entry-IsSorted,
}
use fractaltree.Node.LeafSearch.{
  leaf_insert_lem, leaf_delete_lem, leaf_search-lookup, set_value-put_entry,
}
use fractaltree.Read.Get.{get_from_node_lem}
use fractaltree.Ordered.{InRange, IsOrdered, eval}
use fractaltree.Ordered.Congr.{eval-congr}
use fractaltree.Apply.{Counters, value_at}
use fractaltree.Flush.{TreeParams}
use fractaltree.Tree.{
  BeTree, get, contains, put_root, put_locked, put_key, delete_root, delete_key, upsert_root,
  upsert_key, put_if_absent, clear, len, count_delete,
}
use fractaltree.Tree.Buffer.{Holds, split_full_leaf-Holds, write_message-Holds}

module _ {ℓ κ} {K : Type ℓ} {V : Type κ} ⦃o : Ord K⦄ where
  -- the invariant of the search tree, from the root down
  abbrev pub IsValid : BeTree K V → Type 0
  IsValid t = IsOrdered none none t.root

  -- a map changed at one key, and at the keys that compare equal to it
  abbrev pub update : (K → Option V) → K → Option V → K → Option V
  update f k w j = elim (o.cmp k j) [ eq ↦ w | _ ↦ f j ]

  unbounded : (es : List (K × V)) → All (λ e. InRange none none e.0) es
  unbounded [] = tt
  unbounded (e ∷ es) = ((tt, tt), unbounded es)

  pub get-eval : (t : BeTree K V) → IsValid t → get t ≡ eval t.root
  unfolding get
  get-eval t a = fun_ext λ k. get_from_node_lem t.root k none none a

  -- what a state with a new root reads
  view :
      (t u : BeTree K V) (F : (K → Option V) → K → Option V)
      → IsValid t
      → Holds u.root (F (eval t.root))
      → IsValid u × (get u ≡ F (get t))
  view t u F a h = (h.ordered, get-eval u h.ordered ∙ fun_ext h.value ∙ ap F (sym (get-eval t a)))

  pub leaf-Holds :
      (es : List (K × V)) (f : K → Option V)
      → IsSorted es
      → ((k : K) → lookup es k ≡ f k)
      → Holds (leaf es) f
  unfolding IsOrdered eval
  leaf-Holds es f s v = record { ordered = (unbounded es, s); value = v }

  pub leaf_order : (es : List (K × V)) → IsOrdered none none (leaf es) → IsSorted es
  unfolding IsOrdered
  leaf_order es a = a.1

  pub put_entry-Holds :
      (es : List (K × V)) (k : K) (v : V)
      → IsOrdered none none (leaf es)
      → Holds (leaf (put_entry es k v)) (update (eval (leaf es)) k (some v))
  unfolding eval
  put_entry-Holds es k v a =
      leaf-Holds (put_entry es k v) _ (put_entry-IsSorted es k v (leaf_order es a))
        (λ j. lookup-put_entry es k j v)

  pub erase_entry-Holds :
      (es : List (K × V)) (k : K)
      → IsOrdered none none (leaf es)
      → Holds (leaf (erase_entry es k)) (update (eval (leaf es)) k none)
  unfolding eval
  erase_entry-Holds es k a =
      leaf-Holds (erase_entry es k) _ (erase_entry-IsSorted es k (leaf_order es a))
        (λ j. lookup-erase_entry es k j (leaf_order es a))

  unchanged :
      (n : Node K V) (k : K)
      → IsOrdered none none n
      → is_some (eval n k) ≡ false
      → Holds n (update (eval n) k none)
  unchanged n k a h = record { ordered = a; value = λ j. ground (arith, eval-congr n k j) }

module _ {ℓ κ} {K : Type ℓ} {V : Type κ} ⦃z : Zero V⦄ ⦃o : Ord K⦄ where
  put_root-Holds :
      (params : TreeParams) (n : Node K V) (c : Counters) (k : K) (v : V) (known_new : Bool)
      → IsOrdered none none n
      → Holds (put_root params n c k v known_new).0 (update (eval n) k (some v))
  put_root-Holds params (leaf es) c k v known_new a =
      rw (leaf_insert_lem es k v (leaf_order es a))
        (split_full_leaf-Holds params (put_entry es k v) _ (put_entry-Holds es k v a))
  put_root-Holds params (internal ps cs buf s) c k v known_new a =
      write_message-Holds params ps cs buf s (put k v _) _ a tt

  delete_leaf-Holds :
      (params : TreeParams) (es : List (K × V)) (c : Counters) (k : K)
      → IsOrdered none none (leaf es)
      → Holds (delete_root params (leaf es) c k).0.0 (update (eval (leaf es)) k none)
        × ((delete_root params (leaf es) c k).1 ≡ is_some (eval (leaf es) k))
  unfolding eval
  delete_leaf-Holds params es c k a =
      rw (leaf_delete_lem es k (leaf_order es a)) (elim (Bool-cases (is_some (lookup es k))) [
        | inl e ↦ rw e (erase_entry-Holds es k a, refl)
        | inr e ↦ rw e (erase_entry-Holds es k a, refl)
      ])

  upsert_leaf-Holds :
      (params : TreeParams) (es : List (K × V)) (c : Counters) (k : K) (f : UpsertFn V)
      → IsOrdered none none (leaf es)
      → Holds
          (upsert_root params (leaf es) c k f).0
          (update (eval (leaf es)) k (some (f (eval (leaf es) k))))
  unfolding eval
  upsert_leaf-Holds params es c k f a =
      let s = leaf_order es a in
      let found = leaf_search-lookup es k s in
      let i = (leaf_search es k).0 in
      let put_here = λ (b : Option V). λ (q : b ≡ lookup es k).
        split_full_leaf-Holds params (put_entry es k (f b)) _ (
          subst
            (λ y.
              Holds (leaf (put_entry es k (f y)))
                (update (eval (leaf es)) k (some (f (lookup es k)))))
            (sym q) (put_entry-Holds es k (f (lookup es k)) a)) in
      elim (Bool-cases (leaf_search es k).1) [
        | inl e ↦
            rw (e, set_value-put_entry es k (f (value_at es i)) s e)
              (put_here (value_at es i) (rw e at found.1))
        | inr e ↦ rw (e, leaf_insert_lem es k (f none) s) (put_here none (rw e at found.1))
      ]

  delete_root-Holds :
      (params : TreeParams) (n : Node K V) (c : Counters) (k : K)
      → IsOrdered none none n
      → Holds (delete_root params n c k).0.0 (update (eval n) k none)
        × ((delete_root params n c k).1 ≡ is_some (eval n k))
  delete_root-Holds params (leaf es) c k a = delete_leaf-Holds params es c k a
  delete_root-Holds params (internal ps cs buf s) c k a =
      let n = internal ps cs buf s in
      rw (get_from_node_lem n k none none a) (elim (Bool-cases (is_some (eval n k))) [
        | inl e ↦
            rw e (write_message-Holds params ps cs buf s (delete k) (count_delete c) a tt, refl)
        | inr e ↦ rw e (unchanged n k a e, refl)
      ])

  upsert_root-Holds :
      (params : TreeParams) (n : Node K V) (c : Counters) (k : K) (f : UpsertFn V)
      → IsOrdered none none n
      → Holds (upsert_root params n c k f).0 (update (eval n) k (some (f (eval n k))))
  upsert_root-Holds params (leaf es) c k f a = upsert_leaf-Holds params es c k f a
  upsert_root-Holds params (internal ps cs buf s) c k f a =
      let n = internal ps cs buf s in
      let h = write_message-Holds params ps cs buf s (upsert k f) c a tt in
      record { ordered = h.ordered; value = λ j. h.value j ∙ ground (arith, eval-congr n k j) }

  pub put_locked-Holds :
      (t : BeTree K V) (k : K) (v : V) (known_new : Bool)
      → IsValid t
      → Holds (put_locked t k v known_new).root (update (eval t.root) k (some v))
  unfolding put_locked
  put_locked-Holds t k v known_new a = put_root-Holds t.params t.root t.counters k v known_new a

  put_if_absent-contains :
      (t : BeTree K V) (k : K) (v : V)
      → put_if_absent t k v ≡ (if contains t k then (t, false) else (put_locked t k v true, true))
  unfolding put_if_absent contains
  put_if_absent-contains t k v = refl

  -- On a valid tree `Put` keeps the tree valid, and sets the key and nothing else.
  pub get-put_key :
      (t : BeTree K V) (k : K) (v : V)
      → IsValid t
      → IsValid (put_key t k v) × (get (put_key t k v) ≡ update (get t) k (some v))
  unfolding put_key
  get-put_key t k v a =
      view t (put_key t k v) (λ g. update g k (some v)) a
        (put_root-Holds t.params t.root t.counters k v false a)

  -- On a valid tree `Delete` keeps the tree valid, removes the key and nothing else, and returns
  -- whether the key held a value.
  pub get-delete_key :
      (t : BeTree K V) (k : K)
      → IsValid t
      → IsValid (delete_key t k).0
        × (get (delete_key t k).0 ≡ update (get t) k none)
        × ((delete_key t k).1 ≡ contains t k)
  unfolding delete_key contains
  get-delete_key t k a =
      let h = delete_root-Holds t.params t.root t.counters k a in
      let u = view t (delete_key t k).0 (λ g. update g k none) a h.0 in
      (u.0, u.1, h.1 ∙ ap (λ g. is_some (g k)) (sym (get-eval t a)))

  -- On a valid tree `Upsert` keeps the tree valid, and sets the key, and nothing else, to what the
  -- function makes of its present value.
  pub get-upsert_key :
      (t : BeTree K V) (k : K) (f : UpsertFn V)
      → IsValid t
      → IsValid (upsert_key t k f)
        × (get (upsert_key t k f) ≡ update (get t) k (some (f (get t k))))
  unfolding upsert_key
  get-upsert_key t k f a =
      view t (upsert_key t k f) (λ g. update g k (some (f (g k)))) a
        (upsert_root-Holds t.params t.root t.counters k f a)

  -- On a valid tree `PutIfAbsent` keeps the tree valid, returns true exactly if the key held no
  -- value, and sets the key only then.
  pub get-put_if_absent :
      (t : BeTree K V) (k : K) (v : V)
      → IsValid t
      → IsValid (put_if_absent t k v).0
        × ((put_if_absent t k v).1 ≡ not (contains t k))
        × (get (put_if_absent t k v).0
            ≡ (if contains t k then get t else update (get t) k (some v)))
  get-put_if_absent t k v a =
      let u =
        view t (put_locked t k v true) (λ g. update g k (some v)) a
          (put_locked-Holds t k v true a) in
      rw (put_if_absent-contains t k v) (elim (Bool-cases (contains t k)) [
        | inl e ↦ rw e (a, refl, refl)
        | inr e ↦ rw e (u.0, refl, u.1)
      ])

  empty-Holds : Holds {K = K} {V = V} (leaf []) (λ k. none)
  unfolding lookup eval
  empty-Holds = leaf-Holds [] (λ k. none) tt (λ k. refl)

  -- `Clear` leaves a valid tree that holds no key, counts 0 keys and has the same parameters.
  pub get-clear :
      (t : BeTree K V)
      → IsValid (clear t)
        × (get (clear t) ≡ (λ k. none))
        × (len (clear t) ≡ pos 0)
        × ((clear t).params ≡ t.params)
  unfolding clear len
  get-clear t = (
    empty-Holds.ordered,
    get-eval (clear t) empty-Holds.ordered ∙ fun_ext empty-Holds.value,
    refl,
    refl,
  )
