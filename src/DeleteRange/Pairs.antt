-- ===== src/DeleteRange/Pairs.antt =====
-- tree.go, DeleteRange below an internal root: the deletes of the pairs found, and the flush after them.
use fractaltree.Prelude.{
  ◌≡◌, ◌≢◌, refl, ap, ◌∙◌, Bool, true, false, lt, eq, Option, none, List, [], ◌∷◌, ◌++◌,
  append_assoc, arith, if◌then◌else◌, is_some, ltb, leb, length, select, All, All-append,
  All-select, Bool-cases, inl, inr,
}
use fractaltree.Order.{Ord, ◌≺◌}
use fractaltree.Message.{Message, Zero, delete}
use fractaltree.Message.Replay.{replay, replay-append}
use fractaltree.Node.{internal, Children, in_slice, append_to_buffer}
use fractaltree.Node.Entries.{lookup, IsSorted, AllKeys}
use fractaltree.Node.Same.{not_in_tail}
use fractaltree.Ordered.{IsOrdered, Fits, eval, eval_at}
use fractaltree.Apply.{Counters}
use fractaltree.Flush.{TreeParams, flush_node}
use fractaltree.Flush.Eval.{flush_node_lem}
use fractaltree.Tree.Buffer.{Holds, short-IsBufferSorted, split_full_root-Holds}
use fractaltree.DeleteRange.{append_deletes, flush_full_root, count_deleted, delete_pairs}

module _ {ℓ κ} {K : Type ℓ} {V : Type κ} ⦃o : Ord K⦄ where
  -- a map without the keys of [lo, hi)
  abbrev pub without : K → K → (K → Option V) → K → Option V
  without lo hi f k = if in_slice lo hi true false k then none else f k

  abbrev pub deletes : List (K × V) → List (Message K V)
  deletes [] = []
  deletes (e ∷ es) = delete e.0 ∷ deletes es

  select-AllKeys :
      (P : K → Type 0) (p : K × V → Bool) (es : List (K × V))
      → AllKeys P es
      → AllKeys P (select p es)
  select-AllKeys P p es a = All-select (λ e. P e.0) p es a

  pub select-IsSorted :
      (p : K × V → Bool) (es : List (K × V)) → IsSorted es → IsSorted (select p es)
  select-IsSorted p [] s = tt
  select-IsSorted p ((a, v) ∷ es) s =
      ground (arith, select-IsSorted p es s.1, select-AllKeys (λ b. a ≺ b) p es s.0)

  -- a selection by a test of the keys
  pub lookup-select :
      (p : K × V → Bool) (b : Bool) (k : K) (es : List (K × V))
      → IsSorted es
      → ((e : K × V) → o.cmp e.0 k ≡ eq → p e ≡ b)
      → lookup (select p es) k ≡ (if b then lookup es k else none)
  unfolding lookup
  lookup-select p b k [] s h = ground arith
  lookup-select p b k ((a, v) ∷ es) s h =
      let above = select-AllKeys (λ c. a ≺ c) p es s.0 in
      ground (
        arith,
        h (a, v),
        lookup-select p b k es s.1 h,
        λ (e : o.cmp a k ≢ lt). not_in_tail a k (select p es) e above,
      )

  -- deletes of sorted pairs remove the keys that the pairs hold, and no other
  replay-deletes :
      (es : List (K × V)) (k : K) (w : Option V)
      → IsSorted es
      → replay k (deletes es) w ≡ (if is_some (lookup es k) then none else w)
  unfolding replay lookup
  replay-deletes [] k w s = refl
  replay-deletes ((a, v) ∷ es) k w s =
      ground (arith, replay-deletes es k w s.1, replay-deletes es k none s.1, not_in_tail a k es)

  pub append_deletes_lem :
      (b : List (Message K V) × Bool) (e : K × V) (es : List (K × V))
      → append_deletes b (e ∷ es)
        ≡ (b.0 ++ deletes (e ∷ es), leb (length (b.0 ++ deletes (e ∷ es))) 1)
  unfolding append_deletes
  append_deletes_lem b e [] = refl
  append_deletes_lem b e (f ∷ es) =
      append_deletes_lem (append_to_buffer b.0 (delete e.0)) f es
      ∙ ap (λ m. (m, leb (length m) 1)) (append_assoc b.0 (delete e.0 ∷ []) (deletes (f ∷ es)))

  deletes-Fits : (es : List (K × V)) → All (Fits none none) (deletes es)
  deletes-Fits [] = tt
  deletes-Fits (e ∷ es) = (((tt, tt), tt), deletes-Fits es)

  -- appending the deletes of sorted pairs
  pub append_deletes-Holds :
      (ps : List K) (cs : Children K V) (buf : List (Message K V)) (s : Bool) (e : K × V)
      (es : List (K × V))
      → IsOrdered none none (internal ps cs buf s)
      → IsSorted (e ∷ es)
      → Holds
          (internal ps cs (append_deletes (buf, s) (e ∷ es)).0 (append_deletes (buf, s) (e ∷ es)).1)
          (λ k. if is_some (lookup (e ∷ es) k) then none else eval (internal ps cs buf s) k)
  unfolding IsOrdered eval
  append_deletes-Holds ps cs buf s e es a t =
      let ms = deletes (e ∷ es) in
      rw (append_deletes_lem (buf, s) e es) (record {
        ordered = (
          All-append (Fits none none) buf ms a.0 (deletes-Fits (e ∷ es)),
          short-IsBufferSorted (buf ++ ms),
          a.2,
        );
        value = λ k.
            replay-append k buf ms (eval_at ps cs k)
            ∙ replay-deletes (e ∷ es) k (replay k buf (eval_at ps cs k)) t;
      })

module _ {ℓ κ} {K : Type ℓ} {V : Type κ} ⦃z : Zero V⦄ ⦃o : Ord K⦄ where
  flush_full_root-Holds :
      (params : TreeParams) (ps : List K) (cs : Children K V) (b : List (Message K V) × Bool)
      (c : Counters) (f : K → Option V)
      → Holds (internal ps cs b.0 b.1) f
      → Holds (flush_full_root params ps cs b c).0 f
  flush_full_root-Holds params ps cs b c f h =
      let g = flush_node_lem params (internal ps cs b.0 b.1) none none c h.ordered in
      elim (Bool-cases (ltb params.buffer_cap (length b.0))) [
        | inl e ↦ rw e (
            split_full_root-Holds params (flush_node params (internal ps cs b.0 b.1) c).0 f
              (record { ordered = g.0; value = λ k. g.1 k ∙ h.value k }))
        | inr e ↦ rw e h
      ]

  -- what the pairs of the range say of the keys that are left
  left_over :
      (f : K → Option V) (lo hi k : K) (es : List (K × V))
      → lookup es k ≡ (if in_slice lo hi true false k then f k else none)
      → (if is_some (lookup es k) then none else f k) ≡ without lo hi f k
  left_over f lo hi k es h = rw h (ground arith)

  pub delete_pairs-Holds :
      (params : TreeParams) (ps : List K) (cs : Children K V) (buf : List (Message K V)) (s : Bool)
      (c : Counters) (lo hi : K) (es : List (K × V))
      → IsOrdered none none (internal ps cs buf s)
      → IsSorted es
      → ((k : K)
          → lookup es k
            ≡ (if in_slice lo hi true false k then eval (internal ps cs buf s) k else none))
      → Holds
          (delete_pairs params ps cs (buf, s) c es).0.0
          (without lo hi (eval (internal ps cs buf s)))
        × ((delete_pairs params ps cs (buf, s) c es).1 ≡ length es)
  unfolding lookup
  delete_pairs-Holds params ps cs buf s c lo hi [] a t h = (
    record { ordered = a; value = λ k. left_over (eval (internal ps cs buf s)) lo hi k [] (h k) },
    refl,
  )
  delete_pairs-Holds params ps cs buf s c lo hi (e ∷ es) a t h =
      let g = append_deletes-Holds ps cs buf s e es a t in
      (
        flush_full_root-Holds params ps cs (append_deletes (buf, s) (e ∷ es))
            (count_deleted c (length (e ∷ es))) (without lo hi (eval (internal ps cs buf s)))
            (record {
              ordered = g.ordered;
              value =
                  λ k. g.value k ∙ left_over (eval (internal ps cs buf s)) lo hi k (e ∷ es) (h k);
            }),
        refl,
      )
