-- ===== src/Count/Parted.antt =====
-- flush.go, flushNode: the deletes of a flushed bucket, and those kept back, find what they found before.
use native.Mathlib.Decide.{ℕ_discrete}
use fractaltree.Prelude.{
  ℕ, suc, ◌+◌, ◌<◌, ◌≡◌, ◌≢◌, refl, ap, ◌∙◌, true, eq, Option, List, [], ◌∷◌, arith, All,
  Bool-cases, inl, inr,
}
use fractaltree.Order.{Ord, is_le, eq_right}
use fractaltree.Message.{Message, key_of}
use fractaltree.Message.Replay.{step, concerns}
use fractaltree.Node.{Node, Children, cons, num_children, find_child_index}
use fractaltree.Ordered.{AreOrdered, eval, eval_at}
use fractaltree.Ordered.Route.{route, find_child_index_lem}
use fractaltree.Flush.{bucket_at, unflushed}
use fractaltree.Flush.Buckets.{parted, child_index, find_child_index-congr}
use fractaltree.Flush.Eval.{
  HaveReceived, RoutesTo, num_children-length, route-le-length, eval_at-first, eval_at-later,
  bucket-RoutesTo,
}
use fractaltree.Count.{total, hits}
use fractaltree.Count.Buckets.{
  select-bucket_at, unflushed_self, unflushed_other, total-unflushed, total-join_buckets,
}
use fractaltree.Count.Hits.{hit_other, hits-same, hits-none}

module _ {ℓ} {K : Type ℓ} ⦃o : Ord K⦄ where
  route-congr : (ps : List K) (j k : K) → o.cmp j k ≡ eq → route ps j ≡ route ps k
  route-congr [] j k e = refl
  route-congr (p ∷ ps) j k e = ground (arith, route-congr ps j k e, eq_right j k p e)

module _ {ℓ κ} {K : Type ℓ} {V : Type κ} ⦃o : Ord K⦄ where
  -- messages of one child leave the keys of the others alone
  pub hits_elsewhere :
      (ps : List K) (h : ℕ) (msgs : List (Message K V)) (k : K) (b : Option V)
      → RoutesTo ps h msgs
      → route ps k ≢ h
      → hits k msgs b ≡ true
  unfolding hits
  hits_elsewhere ps h [] k b a ne = refl
  hits_elsewhere ps h (m ∷ ms) k b a ne = ground (
    arith,
    hits_elsewhere ps h ms k (step k m b) a.1 ne,
    a.0,
    route-congr ps (key_of m) k,
    hit_other k m b,
  )

  pub hits_first :
      (p : K) (ps : List K) (c : Node K V) (cs : Children K V) (msgs : List (Message K V)) (k : K)
      → RoutesTo (p ∷ ps) 0 msgs
      → hits k msgs (eval_at (p ∷ ps) (cons c cs) k) ≡ true
      → hits k msgs (eval c k) ≡ true
  hits_first p ps c cs msgs k a h = elim (Bool-cases (is_le (o.cmp p k))) [
    | inl e ↦ hits_elsewhere (p ∷ ps) 0 msgs k (eval c k) a (λ z. ground arith)
    | inr e ↦ rw (eval_at-first p ps c cs k e) at h
  ]

  pub hits_later :
      (p : K) (ps : List K) (c : Node K V) (cs : Children K V) (i : ℕ) (msgs : List (Message K V))
      (k : K)
      → RoutesTo (p ∷ ps) (suc i) msgs
      → hits k msgs (eval_at (p ∷ ps) (cons c cs) k) ≡ true
      → hits k msgs (eval_at ps cs k) ≡ true
  hits_later p ps c cs i msgs k a h = elim (Bool-cases (is_le (o.cmp p k))) [
    | inl e ↦ rw (eval_at-later p ps c cs k e) at h
    | inr e ↦ hits_elsewhere (p ∷ ps) (suc i) msgs k (eval_at ps cs k) a (λ z. ground arith)
  ]

  -- a key's messages are in one bucket
  one_bucket :
      (ps : List K) (k : K) (m : Message K V)
      → concerns k m ≡ true
      → child_index ps m ≡ find_child_index ps k
  one_bucket ps k m e = find_child_index-congr ps k (key_of m) (ground arith)

  pub all_routed :
      (lo hi : Option K) (ps : List K) (cs : Children K V) (ms : List (Message K V))
      → AreOrdered lo hi ps cs
      → All (λ m. child_index ps m < num_children cs) ms
  all_routed lo hi ps cs [] a = tt
  all_routed lo hi ps cs (m ∷ ms) a = (
    omega (
      arith,
      find_child_index_lem lo hi ps cs (key_of m) a,
      route-le-length ps (key_of m),
      num_children-length lo hi ps cs a,
    ),
    all_routed lo hi ps cs ms a,
  )

  pub total_kept :
      (lo hi : Option K) (ps : List K) (cs : Children K V) (buf : List (Message K V)) (h : ℕ)
      (w : Message K V → ℕ)
      → AreOrdered lo hi ps cs
      → total w (bucket_at (parted (child_index ps) 0 (num_children cs) buf) h)
          + total w (unflushed (parted (child_index ps) 0 (num_children cs) buf) h)
        ≡ total w buf
  total_kept lo hi ps cs buf h w a =
      total-unflushed (child_index ps) w 0 (num_children cs) h buf
      ∙ total-join_buckets (child_index ps) w (num_children cs) buf (all_routed lo hi ps cs buf a)

  -- the messages of a bucket hit, as they did in the buffer
  pub bucket_hits :
      (lo hi : Option K) (ps : List K) (cs : Children K V) (buf : List (Message K V)) (h : ℕ)
      (k : K)
      → AreOrdered lo hi ps cs
      → hits k buf (eval_at ps cs k) ≡ true
      → hits k (bucket_at (parted (child_index ps) 0 (num_children cs) buf) h) (eval_at ps cs k)
        ≡ true
  bucket_hits lo hi ps cs buf h k a q =
      let bucket = bucket_at (parted (child_index ps) 0 (num_children cs) buf) h in
      let same = find_child_index_lem lo hi ps cs k a in
      elim (ℕ_discrete (route ps k) h) [
        | yes e ↦
            hits-same k bucket buf (eval_at ps cs k) (
              select-bucket_at (child_index ps) (concerns k) (find_child_index ps k)
                (one_bucket ps k) 0 (num_children cs) h buf (omega (arith, same))
                (omega (arith, route-le-length ps k, num_children-length lo hi ps cs a)))
            ∙ q
        | no ne ↦
            hits_elsewhere ps h bucket k (eval_at ps cs k) (bucket-RoutesTo lo hi ps cs buf h a) ne
      ]

  -- so do those kept back, over the children after the flush
  pub rest_hits :
      (lo hi : Option K) (ps : List K) (cs cs' : Children K V) (buf msgs : List (Message K V))
      (h : ℕ) (k : K)
      → AreOrdered lo hi ps cs
      → HaveReceived lo hi ps cs h msgs cs'
      → hits k buf (eval_at ps cs k) ≡ true
      → hits k (unflushed (parted (child_index ps) 0 (num_children cs) buf) h) (eval_at ps cs' k)
        ≡ true
  rest_hits lo hi ps cs cs' buf msgs h k a r q =
      let kept = unflushed (parted (child_index ps) 0 (num_children cs) buf) h in
      let same = find_child_index_lem lo hi ps cs k a in
      elim (ℕ_discrete (route ps k) h) [
        | yes e ↦ hits-none k kept (eval_at ps cs' k) (
            unflushed_self (child_index ps) (concerns k) (find_child_index ps k) (one_bucket ps k) 0
              (num_children cs) h buf (omega (arith, same)))
        | no ne ↦
            ap (hits k kept) (r.other k ne)
            ∙ hits-same k kept buf (eval_at ps cs k) (
                unflushed_other (child_index ps) (concerns k) (find_child_index ps k)
                  (one_bucket ps k) 0 (num_children cs) h buf (λ z. ne (omega (arith, same)))
                  (omega arith)
                  (omega (arith, same, route-le-length ps k, num_children-length lo hi ps cs a)))
            ∙ q
      ]
