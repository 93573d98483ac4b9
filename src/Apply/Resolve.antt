-- ===== src/Apply/Resolve.antt =====
-- flush.go, resolveMessages: sorting and folding a batch to one message a key changes its effect on
-- no key.
use fractaltree.Prelude.{
  ◌≡◌, refl, ap, sym, ◌∙◌, true, false, lt, eq, Option, List, [], ◌∷◌, ◌++◌, arith, All, All-snoc,
  if◌then◌else◌, Bool-cases, inl, inr,
}
use fractaltree.Order.{Ord, ◌≺◌, ◌≼◌, is_eq, eq_right, lt_le_trans}
use fractaltree.Message.{Message, put, delete, delete_range, upsert, key_of}
use fractaltree.Message.Replay.{step, replay, replay-append, IsPoint, le-All-trans}
use fractaltree.Node.Buffer.{IsBufferSorted}
use fractaltree.Merge.Puts.{IsStrict}
use fractaltree.Apply.{
  is_ascending, insert_stable, sort_stable, fold_message, resolve_key_group, resolve_groups,
  group_messages, resolve_messages,
}

module _ {ℓ κ} {K : Type ℓ} {V : Type κ} where
  -- folding keeps what it keeps for each message
  abbrev pub IsFolded : (Message K V → Type 0) → Type (ℓ ⊔ κ)
  IsFolded P = (r m : Message K V) → P r → P m → P (fold_message r m)

  -- the folded message has the key of one of the two
  pub fold_message-key : (P : K → Type 0) → IsFolded (λ m. P (key_of m))
  fold_message-key P r (put k v c) p q = q
  fold_message-key P r (delete k) p q = q
  fold_message-key P r (delete_range k e) p q = p
  fold_message-key P (put k' v c) (upsert k f) p q = p
  fold_message-key P (delete k') (upsert k f) p q = p
  fold_message-key P (delete_range k' e) (upsert k f) p q = p
  fold_message-key P (upsert k' g) (upsert k f) p q = p

  pub fold_message-IsPoint : IsFolded IsPoint
  fold_message-IsPoint r (put k v c) p q = tt
  fold_message-IsPoint r (delete k) p q = tt
  fold_message-IsPoint r (delete_range k e) p q = p
  fold_message-IsPoint (put k' v c) (upsert k f) p q = tt
  fold_message-IsPoint (delete k') (upsert k f) p q = tt
  fold_message-IsPoint (delete_range k' e) (upsert k f) p q = p
  fold_message-IsPoint (upsert k' g) (upsert k f) p q = tt

  resolve_key_group-All :
      (P : Message K V → Type 0) (r : Message K V) (ms : List (Message K V))
      → IsFolded P
      → P r
      → All P ms
      → P (resolve_key_group r ms)
  unfolding resolve_key_group
  resolve_key_group-All P r [] f h a = h
  resolve_key_group-All P r (m ∷ ms) f h a =
      resolve_key_group-All P (fold_message r m) ms f (f r m h a.0) a.1

module _ {ℓ κ} {K : Type ℓ} {V : Type κ} ⦃o : Ord K⦄ where
  insert_stable-All :
      (P : Message K V → Type 0) (m : Message K V) (ms : List (Message K V))
      → P m
      → All P ms
      → All P (insert_stable m ms)
  unfolding insert_stable
  insert_stable-All P m [] h a = (h, tt)
  insert_stable-All P m (n ∷ ms) h a = ground (arith, insert_stable-All P m ms h)

  sort_stable-All :
      (P : Message K V → Type 0) (ms : List (Message K V)) → All P ms → All P (sort_stable ms)
  unfolding sort_stable
  sort_stable-All P [] a = tt
  sort_stable-All P (m ∷ ms) a =
      insert_stable-All P m (sort_stable ms) a.0 (sort_stable-All P ms a.1)

  resolve_groups-All :
      (P : Message K V → Type 0) (r : Message K V) (group ms : List (Message K V))
      → IsFolded P
      → P r
      → All P group
      → All P ms
      → All P (resolve_groups r group ms)
  unfolding resolve_groups
  resolve_groups-All P r group [] f h g a = (resolve_key_group-All P r group f h g, tt)
  resolve_groups-All P r group (m ∷ ms) f h g a =
      elim (is_eq (o.cmp (key_of r) (key_of m)))
        as (λ b. All P (elim b [
          | true ↦ resolve_groups r (group ++ m ∷ []) ms
          | false ↦ resolve_key_group r group ∷ resolve_groups m [] ms
        ])) [
          | true ↦ resolve_groups-All P r (group ++ m ∷ []) ms f h (All-snoc P group m g a.0) a.1
          | false ↦
              (resolve_key_group-All P r group f h g, resolve_groups-All P m [] ms f a.0 tt a.1)
        ]

  group_messages-All :
      (P : Message K V → Type 0) (ms : List (Message K V))
      → IsFolded P
      → All P ms
      → All P (group_messages ms)
  unfolding group_messages
  group_messages-All P [] f a = tt
  group_messages-All P (m ∷ ms) f a = resolve_groups-All P m [] ms f a.0 tt a.1

  pub resolve_messages-All :
      (P : Message K V → Type 0) (ms : List (Message K V))
      → ((r m : Message K V) → P r → P m → P (fold_message r m))
      → All P ms
      → All P (resolve_messages ms)
  unfolding resolve_messages
  resolve_messages-All P ms f a =
      group_messages-All P (if is_ascending ms then ms else sort_stable ms) f
        (ground (arith, sort_stable-All P ms))

  insert_stable-IsBufferSorted :
      (m : Message K V) (ms : List (Message K V))
      → IsBufferSorted ms
      → IsBufferSorted (insert_stable m ms)
  unfolding insert_stable
  insert_stable-IsBufferSorted m [] s = (tt, tt)
  insert_stable-IsBufferSorted m (n ∷ ms) s = ground (
    arith,
    insert_stable-IsBufferSorted m ms s.1,
    insert_stable-All (λ x. key_of n ≼ key_of x) m ms,
    o.lt_of_gt (key_of m) (key_of n),
    le-All-trans (key_of m) (key_of n) ms,
  )

  sort_stable-IsBufferSorted : (ms : List (Message K V)) → IsBufferSorted (sort_stable ms)
  unfolding sort_stable
  sort_stable-IsBufferSorted [] = tt
  sort_stable-IsBufferSorted (m ∷ ms) =
      insert_stable-IsBufferSorted m (sort_stable ms) (sort_stable-IsBufferSorted ms)

  -- messages of different keys commute
  replay-insert_stable :
      (m : Message K V) (ms : List (Message K V)) (k : K) (b : Option V)
      → replay k (insert_stable m ms) b ≡ replay k (m ∷ ms) b
  unfolding insert_stable replay
  replay-insert_stable m [] k b = refl
  replay-insert_stable m (n ∷ ms) k b = ground (
    arith,
    replay-insert_stable m ms k (step k n b),
    eq_right (key_of m) k (key_of n),
    o.eq_left (key_of m) k (key_of n),
    o.eq_sym (key_of n) k,
  )

  replay-sort_stable :
      (ms : List (Message K V)) (k : K) (b : Option V) → replay k (sort_stable ms) b ≡ replay k ms b
  unfolding sort_stable replay
  replay-sort_stable [] k b = refl
  replay-sort_stable (m ∷ ms) k b =
      replay-insert_stable m (sort_stable ms) k b ∙ replay-sort_stable ms k (step k m b)

  step-fold_message :
      (r m : Message K V) (k : K) (b : Option V)
      → IsPoint r
      → IsPoint m
      → o.cmp (key_of r) (key_of m) ≡ eq
      → step k (fold_message r m) b ≡ step k m (step k r b)
  step-fold_message r (put j v c) k b p q e = ground (arith, o.eq_left (key_of r) j k e)
  step-fold_message r (delete j) k b p q e = ground (arith, o.eq_left (key_of r) j k e)
  step-fold_message r (delete_range j x) k b p q e = absurd q
  step-fold_message (put i v c) (upsert j f) k b p q e = ground (arith, o.eq_left i j k e)
  step-fold_message (delete i) (upsert j f) k b p q e = ground (arith, o.eq_left i j k e)
  step-fold_message (delete_range i x) (upsert j f) k b p q e = absurd p
  step-fold_message (upsert i g) (upsert j f) k b p q e = ground (arith, o.eq_left i j k e)

  fold_message-eq :
      (r m : Message K V) (ms : List (Message K V))
      → o.cmp (key_of r) (key_of m) ≡ eq
      → All (λ x. o.cmp (key_of r) (key_of x) ≡ eq) ms
      → All (λ x. o.cmp (key_of (fold_message r m)) (key_of x) ≡ eq) ms
  fold_message-eq r m [] e a = tt
  fold_message-eq r m (x ∷ ms) e a = (
    fold_message-key (λ i. o.cmp i (key_of x) ≡ eq) r m a.0
        (ground (arith, o.eq_left (key_of r) (key_of m) (key_of x))),
    fold_message-eq r m ms e a.1,
  )

  replay-resolve_key_group :
      (r : Message K V) (group : List (Message K V)) (k : K) (b : Option V)
      → IsPoint r
      → All IsPoint group
      → All (λ x. o.cmp (key_of r) (key_of x) ≡ eq) group
      → step k (resolve_key_group r group) b ≡ replay k group (step k r b)
  unfolding resolve_key_group replay
  replay-resolve_key_group r [] k b p q e = refl
  replay-resolve_key_group r (m ∷ ms) k b p q e =
      replay-resolve_key_group (fold_message r m) ms k b (fold_message-IsPoint r m p q.0) q.1
        (fold_message-eq r m ms e.0 e.1)
      ∙ ap (replay k ms) (step-fold_message r m k b p q.0 e.0)

  replay-resolve_groups :
      (r : Message K V) (group ms : List (Message K V)) (k : K) (b : Option V)
      → IsPoint r
      → All IsPoint group
      → All IsPoint ms
      → All (λ x. o.cmp (key_of r) (key_of x) ≡ eq) group
      → replay k (resolve_groups r group ms) b ≡ replay k ms (replay k group (step k r b))
  unfolding resolve_groups replay
  replay-resolve_groups r group [] k b p q t e = replay-resolve_key_group r group k b p q e
  replay-resolve_groups r group (m ∷ ms) k b p q t e = ground (
    arith,
    replay-resolve_groups r (group ++ m ∷ []) ms k b p (All-snoc IsPoint group m q t.0) t.1,
    All-snoc (λ x. o.cmp (key_of r) (key_of x) ≡ eq) group m e,
    replay-append k group (m ∷ []) (step k r b),
    replay-resolve_groups m [] ms k (step k (resolve_key_group r group) b) t.0 tt t.1 tt,
    replay-resolve_key_group r group k b p q e,
  )

  replay-group_messages :
      (ms : List (Message K V)) (k : K) (b : Option V)
      → All IsPoint ms
      → replay k (group_messages ms) b ≡ replay k ms b
  unfolding group_messages replay
  replay-group_messages [] k b a = refl
  replay-group_messages (m ∷ ms) k b a = replay-resolve_groups m [] ms k b a.0 tt a.1 tt

  -- `resolveMessages` keeps the effect of a batch of puts, deletes and upserts on every key.
  pub replay-resolve_messages :
      (ms : List (Message K V)) (k : K) (b : Option V)
      → All IsPoint ms
      → replay k (resolve_messages ms) b ≡ replay k ms b
  unfolding resolve_messages
  replay-resolve_messages ms k b a = elim (Bool-cases (is_ascending ms)) [
    | inl e ↦ rw e (replay-group_messages ms k b a)
    | inr e ↦ rw e (
        replay-group_messages (sort_stable ms) k b (sort_stable-All IsPoint ms a)
        ∙ replay-sort_stable ms k b)
  ]

  lt_le-All :
      (j k : K) (ms : List (Message K V))
      → j ≺ k
      → All (λ m. k ≼ key_of m) ms
      → All (λ m. j ≺ key_of m) ms
  lt_le-All j k [] h a = tt
  lt_le-All j k (m ∷ ms) h a = (lt_le_trans j k (key_of m) h a.0, lt_le-All j k ms h a.1)

  group_key :
      (r : Message K V) (group : List (Message K V)) (j : K)
      → All (λ x. o.cmp (key_of r) (key_of x) ≡ eq) group
      → o.cmp (key_of r) j ≡ lt
      → key_of (resolve_key_group r group) ≺ j
  group_key r group j e h =
      let P : Message K V → Type 0 = λ x. o.cmp (key_of r) (key_of x) ≡ eq in
      let same : o.cmp (key_of r) (key_of (resolve_key_group r group)) ≡ eq =
        resolve_key_group-All P r group (fold_message-key (λ i. o.cmp (key_of r) i ≡ eq))
          (o.cmp_refl (key_of r)) e in
      sym (o.eq_left (key_of r) (key_of (resolve_key_group r group)) j same) ∙ h

  resolve_groups-above :
      (j : K) (m : Message K V) (ms : List (Message K V))
      → j ≺ key_of m
      → All (λ x. key_of m ≼ key_of x) ms
      → All (λ x. j ≺ key_of x) (resolve_groups m [] ms)
  resolve_groups-above j m ms h a =
      resolve_groups-All (λ x. j ≺ key_of x) m [] ms (fold_message-key (λ i. j ≺ i)) h tt
        (lt_le-All j (key_of m) ms h a)

  resolve_groups-IsStrict :
      (r : Message K V) (group ms : List (Message K V))
      → IsBufferSorted (r ∷ ms)
      → All (λ x. o.cmp (key_of r) (key_of x) ≡ eq) group
      → IsStrict (resolve_groups r group ms)
  unfolding resolve_groups
  resolve_groups-IsStrict r group [] s e = (tt, tt)
  resolve_groups-IsStrict r group (m ∷ ms) s e = ground (
    arith,
    resolve_groups-IsStrict r (group ++ m ∷ []) ms (s.0.1, s.1.1),
    All-snoc (λ x. o.cmp (key_of r) (key_of x) ≡ eq) group m e,
    resolve_groups-IsStrict m [] ms s.1 tt,
    group_key r group (key_of m) e,
    resolve_groups-above (key_of (resolve_key_group r group)) m ms,
  )

  group_messages-IsStrict :
      (ms : List (Message K V)) → IsBufferSorted ms → IsStrict (group_messages ms)
  unfolding group_messages
  group_messages-IsStrict [] s = tt
  group_messages-IsStrict (m ∷ ms) s = resolve_groups-IsStrict m [] ms s tt

  is_ascending-IsBufferSorted :
      (ms : List (Message K V)) → is_ascending ms ≡ true → IsBufferSorted ms
  unfolding is_ascending
  is_ascending-IsBufferSorted [] h = tt
  is_ascending-IsBufferSorted (m ∷ []) h = (tt, tt)
  is_ascending-IsBufferSorted (m ∷ n ∷ ms) h =
      let lower : o.cmp (key_of m) (key_of n) ≡ lt = ground arith in
      let rest = is_ascending-IsBufferSorted (n ∷ ms) (ground arith) in
      ((λ g. ground arith, le-All-trans (key_of m) (key_of n) ms (λ g. ground arith) rest.0), rest)

  -- `resolveMessages` returns one message to a key, in strictly ascending order.
  pub resolve_messages-IsStrict : (ms : List (Message K V)) → IsStrict (resolve_messages ms)
  unfolding resolve_messages
  resolve_messages-IsStrict ms = elim (Bool-cases (is_ascending ms)) [
    | inl e ↦ rw e (group_messages-IsStrict ms (is_ascending-IsBufferSorted ms e))
    | inr e ↦ rw e (group_messages-IsStrict (sort_stable ms) (sort_stable-IsBufferSorted ms))
  ]
