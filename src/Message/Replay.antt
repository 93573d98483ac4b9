-- ===== src/Message/Replay.antt =====
-- What buffered messages mean for one key: the independent description that reads, flushes and
-- iteration are compared with.
use fractaltree.Prelude.{
  ◌≡◌, refl, Bool, eq, Option, none, some, List, [], ◌∷◌, ◌++◌, arith, if◌then◌else◌, select, All,
}
use fractaltree.Order.{Ord, ◌≺◌, ◌≼◌, is_eq, eq_right, le_lt_trans, le_trans}
use fractaltree.Message.{Message, put, delete, delete_range, upsert, key_of}

module _ {ℓ κ} {K : Type ℓ} {V : Type κ} where
  -- a message on the value of its own key
  abbrev pub effect : Message K V → Option V → Option V
  effect (put k v c) b = some v
  effect (delete k) b = none
  effect (delete_range k e) b = b
  effect (upsert k f) b = some (f b)

  -- messages of one key, the oldest first
  abbrev pub replay_all : List (Message K V) → Option V → Option V
  replay_all [] b = b
  replay_all (m ∷ ms) b = replay_all ms (effect m b)

  -- the kinds that the tree's operations buffer
  abbrev pub IsPoint : Message K V → Type 0
  IsPoint (delete_range k e) = ⊥
  IsPoint _ = Unit

module _ {ℓ κ} {K : Type ℓ} {V : Type κ} ⦃o : Ord K⦄ where
  -- a message on the value of any key
  abbrev pub step : K → Message K V → Option V → Option V
  step k m b = elim (o.cmp (key_of m) k) [ eq ↦ effect m b | _ ↦ b ]

  -- messages of all keys, the oldest first, on the value of one
  unfoldable pub replay : K → List (Message K V) → Option V → Option V
  replay k [] b = b
  replay k (m ∷ ms) b = replay k ms (step k m b)

  pub replay-nil : (k : K) (b : Option V) → replay k [] b ≡ b
  unfolding replay
  replay-nil k b = refl

  pub replay-one : (k : K) (m : Message K V) (b : Option V) → replay k (m ∷ []) b ≡ step k m b
  unfolding replay
  replay-one k m b = refl

  abbrev pub concerns : K → Message K V → Bool
  concerns k m = is_eq (o.cmp (key_of m) k)

  pub replay-append :
      (k : K) (xs ys : List (Message K V)) (b : Option V)
      → replay k (xs ++ ys) b ≡ replay k ys (replay k xs b)
  unfolding replay
  replay-append k [] ys b = refl
  replay-append k (m ∷ xs) ys b = replay-append k xs ys (step k m b)

  -- only the messages of the key count
  pub replay-select :
      (k : K) (ms : List (Message K V)) (b : Option V)
      → replay k ms b ≡ replay_all (select (concerns k) ms) b
  unfolding replay
  replay-select k [] b = refl
  replay-select k (m ∷ ms) b = ground (arith, replay-select k ms (step k m b))

  pub replay-congr :
      (j k : K) (ms : List (Message K V)) (b : Option V)
      → o.cmp j k ≡ eq
      → replay j ms b ≡ replay k ms b
  unfolding replay
  replay-congr j k [] b e = refl
  replay-congr j k (m ∷ ms) b e =
      ground (arith, replay-congr j k ms (step k m b) e, eq_right j k (key_of m))

  -- messages chosen by their key: all that concern a key are chosen, or none
  pub replay-select_key :
      (t : K → Bool) (k : K) (ms : List (Message K V)) (b : Option V)
      → ((j : K) → o.cmp j k ≡ eq → t j ≡ t k)
      → replay k (select (λ m. t (key_of m)) ms) b ≡ (if t k then replay k ms b else b)
  unfolding replay
  replay-select_key t k [] b h = ground arith
  replay-select_key t k (m ∷ ms) b h =
      ground
        (arith, h (key_of m), replay-select_key t k ms b h, replay-select_key t k ms (step k m b) h)

  pub lt-All-trans :
      (j k : K) (ms : List (Message K V))
      → j ≼ k
      → All (λ m. k ≺ key_of m) ms
      → All (λ m. j ≺ key_of m) ms
  lt-All-trans j k [] h a = tt
  lt-All-trans j k (m ∷ ms) h a = (le_lt_trans j k (key_of m) h a.0, lt-All-trans j k ms h a.1)

  pub le-All-trans :
      (j k : K) (ms : List (Message K V))
      → j ≼ k
      → All (λ m. k ≼ key_of m) ms
      → All (λ m. j ≼ key_of m) ms
  le-All-trans j k [] h a = tt
  le-All-trans j k (m ∷ ms) h a = (le_trans j k (key_of m) h a.0, le-All-trans j k ms h a.1)

  -- messages above a key leave it alone
  pub replay-above :
      (k : K) (ms : List (Message K V)) (b : Option V)
      → All (λ m. k ≺ key_of m) ms
      → replay k ms b ≡ b
  unfolding replay
  replay-above k [] b a = refl
  replay-above k (m ∷ ms) b a =
      ground (arith, replay-above k ms b, o.gt_of_lt k (key_of m), o.eq_sym (key_of m) k)
