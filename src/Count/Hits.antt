-- ===== src/Count/Hits.antt =====
-- message.go: when the deletes among buffered messages find a value.
use fractaltree.Prelude.{
  ◌≡◌, refl, ap, sym, ◌∙◌, Bool, true, false, ◌&&◌, eq, Option, List, [], ◌∷◌, ◌++◌, arith,
  if◌then◌else◌, select,
}
use fractaltree.Order.{Ord, is_eq}
use fractaltree.Message.{Message, put, delete, delete_range, upsert, key_of}
use fractaltree.Message.Replay.{step, replay, concerns}
use fractaltree.Count.{hit, hits}

module _ {ℓ κ} {K : Type ℓ} {V : Type κ} ⦃o : Ord K⦄ where
  pub hit_other :
      (k : K) (m : Message K V) (b : Option V)
      → is_eq (o.cmp (key_of m) k) ≡ false
      → hit k m b ≡ true
  hit_other k (put j v c) b h = refl
  hit_other k (delete j) b h = ground arith
  hit_other k (delete_range j e) b h = refl
  hit_other k (upsert j f) b h = refl

  pub hits-append :
      (k : K) (xs ys : List (Message K V)) (b : Option V)
      → hits k (xs ++ ys) b ≡ (hits k xs b && hits k ys (replay k xs b))
  unfolding hits replay
  hits-append k [] ys b = refl
  hits-append k (m ∷ xs) ys b = ground (arith, hits-append k xs ys (step k m b))

  -- only the messages of the key count
  pub hits-concerns :
      (k : K) (ms : List (Message K V)) (b : Option V)
      → hits k ms b ≡ hits k (select (concerns k) ms) b
  unfolding hits
  hits-concerns k [] b = refl
  hits-concerns k (m ∷ ms) b =
      ground (arith, hits-concerns k ms b, hits-concerns k ms (step k m b), hit_other k m b)

  pub hits-same :
      (k : K) (xs ys : List (Message K V)) (b : Option V)
      → select (concerns k) xs ≡ select (concerns k) ys
      → hits k xs b ≡ hits k ys b
  hits-same k xs ys b e = hits-concerns k xs b ∙ ap (λ l. hits k l b) e ∙ sym (hits-concerns k ys b)

  pub hits-none :
      (k : K) (xs : List (Message K V)) (b : Option V)
      → select (concerns k) xs ≡ []
      → hits k xs b ≡ true
  unfolding hits
  hits-none k xs b e = hits-same k xs [] b e

  -- messages chosen by their key: all that concern a key are chosen, or none
  pub hits-select_key :
      (t : K → Bool) (k : K) (ms : List (Message K V)) (b : Option V)
      → ((j : K) → o.cmp j k ≡ eq → t j ≡ t k)
      → hits k (select (λ m. t (key_of m)) ms) b ≡ (if t k then hits k ms b else true)
  unfolding hits
  hits-select_key t k [] b h = ground arith
  hits-select_key t k (m ∷ ms) b h = ground (
    arith,
    h (key_of m),
    hits-select_key t k ms b h,
    hits-select_key t k ms (step k m b) h,
    hit_other k m b,
  )
