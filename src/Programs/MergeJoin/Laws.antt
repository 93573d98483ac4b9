-- ===== src/Programs/MergeJoin/Laws.antt =====
-- examples/mergejoin/main.go: the loops over two cursors end, and find the pairs of one tree whose keys
-- are in the other, or are not.
use mathlib.Core.Path.{fun_ext}
use fractaltree.Prelude.{
  ℕ, zero, suc, ◌+◌, ◌<◌, ◌≡◌, refl, ap, sym, ◌∙◌, lt, eq, gt, Ordering, ◌⊎◌, inl, inr, Bool, true,
  false, not, none, some, List, [], ◌∷◌, arith, is_some, length, select, All, All-imp,
}
use fractaltree.Order.{Ord}
use fractaltree.Node.Entries.{lookup, IsSorted, IsAbove, IsAbove-trans, IsAbove-congr}
use fractaltree.Iterator.{materialize_all}
use fractaltree.Iterator.Laws.{materialize_all_lem}
use fractaltree.Tree.{BeTree, get}
use fractaltree.Tree.Laws.{IsValid, get-eval}
use fractaltree.Cursor.{Cursor, next}
use fractaltree.Cursor.Rest.{StandsOn, next-StandsOn}
use fractaltree.Sequence.{cursor}
use fractaltree.Programs.MergeJoin.{print, join_loop, anti_loop, merge_join, anti_join}

Ordering-cases : (c : Ordering) → (c ≡ lt) ⊎ ((c ≡ eq) ⊎ (c ≡ gt))
Ordering-cases lt = inl refl
Ordering-cases eq = inr (inl refl)
Ordering-cases gt = inr (inr refl)

module _ {ℓ} {A : Type ℓ} where
  -- tests that agree on all elements select the same
  select-All : (p q : A → Bool) (xs : List A) → All (λ x. p x ≡ q x) xs → select p xs ≡ select q xs
  select-All p q [] a = refl
  select-All p q (x ∷ xs) a = rw (a.0, select-All p q xs a.1) refl

  select-nothing : (xs : List A) → select (λ x. false) xs ≡ []
  select-nothing [] = refl
  select-nothing (x ∷ xs) = select-nothing xs

  select-everything : (xs : List A) → select (λ x. true) xs ≡ xs
  select-everything [] = refl
  select-everything (x ∷ xs) = ap (λ r. x ∷ r) (select-everything xs)

module _ {ℓ κ} {K : Type ℓ} {V : Type κ} ⦃o : Ord K⦄ where
  next_key_lem :
      (a b : K) (x : V) (xs : List (K × V))
      → o.cmp a b ≡ gt
      → IsAbove a xs
      → IsAbove b ((a, x) ∷ xs)
  next_key_lem a b x xs e s = (o.lt_of_gt a b e, IsAbove-trans b a xs (o.lt_of_gt a b e) s)

module _ {ℓ κ μ} {K : Type ℓ} {V : Type κ} {W : Type μ} ⦃o : Ord K⦄ where
  -- is the pair's key among the other pairs?
  abbrev pub is_in : List (K × W) → K × V → Bool
  is_in ys x = is_some (lookup ys x.0)

  is_in-tail :
      (b : K) (w : W) (ys : List (K × W)) (xs : List (K × V))
      → IsAbove b xs
      → All (λ x. is_in ((b, w) ∷ ys) x ≡ is_in ys x) xs
  unfolding lookup
  is_in-tail b w ys [] a = tt
  is_in-tail b w ys (x ∷ xs) a = (ground arith, is_in-tail b w ys xs a.1)

  -- an entry below all of the keys may be dropped, for any test of what is in
  drop_head :
      (g : Bool → Bool) (b : K) (w : W) (ys : List (K × W)) (xs : List (K × V))
      → IsAbove b xs
      → select (λ x. g (is_in ((b, w) ∷ ys) x)) xs ≡ select (λ x. g (is_in ys x)) xs
  drop_head g b w ys xs a =
      select-All (λ x. g (is_in ((b, w) ∷ ys) x)) (λ x. g (is_in ys x)) xs
        (All-imp (λ x. is_in ((b, w) ∷ ys) x ≡ is_in ys x) _ (λ x e. ap g e) xs
          (is_in-tail b w ys xs a))

  is_in-below :
      (a b : K) (x : V) (y : W) (ys : List (K × W))
      → o.cmp a b ≡ lt
      → is_in ((b, y) ∷ ys) (a, x) ≡ false
  unfolding lookup
  is_in-below a b x y ys e = ground (arith, o.gt_of_lt a b)

  is_in-head :
      (a b : K) (x : V) (y : W) (ys : List (K × W))
      → o.cmp a b ≡ eq
      → is_in ((b, y) ∷ ys) (a, x) ≡ true
  unfolding lookup
  is_in-head a b x y ys e = ground (arith, o.eq_sym a b)

  join_loop-StandsOn :
      (f : ℕ) (xs : List (K × V)) (ys : List (K × W)) (ca : Cursor K V) (a_ok : Bool)
      (cb : Cursor K W) (b_ok : Bool)
      → length xs + length ys < f
      → IsSorted xs
      → IsSorted ys
      → StandsOn xs ca a_ok
      → StandsOn ys cb b_ok
      → join_loop f (ca, a_ok) (cb, b_ok) ≡ some (select (is_in ys) xs)
  unfolding join_loop lookup
  join_loop-StandsOn zero xs ys ca a_ok cb b_ok h s t u v = absurd (omega arith)
  join_loop-StandsOn (suc f) [] ys ca a_ok cb b_ok h s t u v = rw u.0 refl
  join_loop-StandsOn (suc f) (x ∷ xs) [] ca a_ok cb b_ok h s t u v =
      rw (u.0, v.0) (ap some (sym (select-nothing xs)))
  join_loop-StandsOn (suc f) ((a, x) ∷ xs) ((b, y) ∷ ys) ca a_ok cb b_ok h s t u v =
      let na = next ca in
      let nb = next cb in
      rw (u.0, v.0, join_loop, u.1, v.1)
        (elim (Ordering-cases (o.cmp a b)) [
          | inl e ↦
              rw (e, is_in-below a b x y ys e)
                (join_loop-StandsOn f xs ((b, y) ∷ ys) na.0 na.1 cb true (omega arith) s.1 t u.2
                  (refl, v.1, v.2))
          | inr (inl e) ↦
              rw (e, is_in-head a b x y ys e)
                (ap (print (a, x))
                    (join_loop-StandsOn f xs ys na.0 na.1 nb.0 nb.1 (omega arith) s.1 t.1 u.2 v.2)
                  ∙ ap (λ r. some ((a, x) ∷ r))
                      (sym (drop_head (λ g. g) b y ys xs (IsAbove-congr xs a b e s.0))))
          | inr (inr e) ↦ rw e (
              join_loop-StandsOn f ((a, x) ∷ xs) ys ca true nb.0 nb.1 (omega arith) s t.1
                (refl, u.1, u.2) v.2
              ∙ ap some
                  (sym (drop_head (λ g. g) b y ys ((a, x) ∷ xs) (next_key_lem a b x xs e s.0))))
        ])

  anti_loop-StandsOn :
      (f : ℕ) (xs : List (K × V)) (ys : List (K × W)) (ca : Cursor K V) (a_ok : Bool)
      (cb : Cursor K W) (b_ok : Bool)
      → length xs + length ys < f
      → IsSorted xs
      → IsSorted ys
      → StandsOn xs ca a_ok
      → StandsOn ys cb b_ok
      → anti_loop f (ca, a_ok) (cb, b_ok) ≡ some (select (λ x. not (is_in ys x)) xs)
  unfolding anti_loop lookup
  anti_loop-StandsOn zero xs ys ca a_ok cb b_ok h s t u v = absurd (omega arith)
  anti_loop-StandsOn (suc f) [] ys ca a_ok cb b_ok h s t u v = rw u.0 refl
  anti_loop-StandsOn (suc f) (x ∷ xs) [] ca a_ok cb b_ok h s t u v =
      let na = next ca in
      rw (u.0, v.0, anti_loop, u.1)
        (ap (print x)
          (anti_loop-StandsOn f xs [] na.0 na.1 cb false (omega arith) s.1 tt u.2 (refl, tt)))
  anti_loop-StandsOn (suc f) ((a, x) ∷ xs) ((b, y) ∷ ys) ca a_ok cb b_ok h s t u v =
      let na = next ca in
      let nb = next cb in
      rw (u.0, v.0, anti_loop, u.1, v.1)
        (elim (Ordering-cases (o.cmp a b)) [
          | inl e ↦
              rw (e, is_in-below a b x y ys e)
                (ap (print (a, x)) (
                  anti_loop-StandsOn f xs ((b, y) ∷ ys) na.0 na.1 cb true (omega arith) s.1 t u.2
                    (refl, v.1, v.2)))
          | inr (inl e) ↦
              rw (e, is_in-head a b x y ys e)
                (anti_loop-StandsOn f xs ys na.0 na.1 nb.0 nb.1 (omega arith) s.1 t.1 u.2 v.2
                  ∙ ap some (sym (drop_head not b y ys xs (IsAbove-congr xs a b e s.0))))
          | inr (inr e) ↦ rw e (
              anti_loop-StandsOn f ((a, x) ∷ xs) ys ca true nb.0 nb.1 (omega arith) s t.1
                (refl, u.1, u.2) v.2
              ∙ ap some (sym (drop_head not b y ys ((a, x) ∷ xs) (next_key_lem a b x xs e s.0))))
        ])

  -- a pair whose key reads find in a tree
  abbrev pub is_held : BeTree K W → K × V → Bool
  is_held t x = is_some (get t x.0)

  in_tree :
      (t : BeTree K W) (a : IsValid t) (g : Bool → Bool) (xs : List (K × V))
      → select (λ x. g (is_in (materialize_all t.root) x)) xs ≡ select (λ x. g (is_held t x)) xs
  in_tree t a g xs =
      let held : (x : K × V) → is_in (materialize_all t.root) x ≡ is_held t x = λ x.
        ap is_some
          ((materialize_all_lem t.root none none a).1 x.0 ∙ ap (λ f. f x.0) (sym (get-eval t a))) in
      ap (λ f. select f xs) (fun_ext (λ x. ap g (held x)))

  -- On valid trees, with one round more of fuel than there are pairs in both, the join prints the
  -- pairs of the first tree whose keys the second holds, and the anti-join prints the others, each
  -- once and in ascending order of the keys.
  pub merge_join_lem :
      (t : BeTree K V) (u : BeTree K W) (fuel : ℕ)
      → IsValid t
      → IsValid u
      → length (materialize_all t.root) + length (materialize_all u.root) < fuel
      → (merge_join fuel t u ≡ some (select (is_held u) (materialize_all t.root)))
        × (anti_join fuel t u ≡ some (select (λ x. not (is_held u x)) (materialize_all t.root)))
  unfolding merge_join anti_join cursor
  merge_join_lem t u fuel a b h =
      let xs = materialize_all t.root in
      let ys = materialize_all u.root in
      let m = materialize_all_lem t.root none none a in
      let n = materialize_all_lem u.root none none b in
      let p = next-StandsOn xs in
      let q = next-StandsOn ys in
      let ca = next (cursor t) in
      let cb = next (cursor u) in
      (
        join_loop-StandsOn fuel xs ys ca.0 ca.1 cb.0 cb.1 h m.0 n.0 p q
            ∙ ap some (in_tree u b (λ g. g) xs),
        anti_loop-StandsOn fuel xs ys ca.0 ca.1 cb.0 cb.1 h m.0 n.0 p q
            ∙ ap some (in_tree u b not xs),
      )
