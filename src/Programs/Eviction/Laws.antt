-- ===== src/Programs/Eviction/Laws.antt =====
-- examples/eviction/main.go: the entry that goes is the first in the order.
use fractaltree.Prelude.{◌≡◌, refl, ap, sym, ◌∙◌, true, Option, none, some, List, [], ◌∷◌}
use fractaltree.Order.{Ord}
use fractaltree.Message.{Zero}
use fractaltree.Iterator.{materialize_all}
use fractaltree.Iterator.Laws.{materialize_all_lem}
use fractaltree.Tree.{BeTree, get, put_key, delete_key}
use fractaltree.Tree.Laws.{IsValid, update, get-eval, get-put_key, get-delete_key}
use fractaltree.Sequence.Laws.{Lists}
use fractaltree.Cursor.{next, current, cursor_of}
use fractaltree.Programs.Eviction.{evict, touch}

module _ {ℓ κ} {K : Type ℓ} {V : Type κ} ⦃z : Zero V⦄ ⦃o : Ord K⦄ where
  -- what an eviction from a cache that lists the pairs makes of it
  abbrev pub Evicts : BeTree K V → K → V → List (K × V) → Option (BeTree K V) → Type (ℓ ⊔ κ)
  Evicts t k v [] r = r ≡ none
  Evicts t k v (e ∷ es) r =
      (u : BeTree K V) × (r ≡ some u)
      × IsValid u
      × (get u ≡ update (update (get t) e.0 none) k (some v))

  replaced :
      (t : BeTree K V) (old k : K) (v : V)
      → IsValid t
      → IsValid (put_key (delete_key t old).0 k v)
        × (get (put_key (delete_key t old).0 k v) ≡ update (update (get t) old none) k (some v))
  replaced t old k v a =
      let d = get-delete_key t old a in
      let p = get-put_key (delete_key t old).0 k v d.0 in
      (p.0, p.1 ∙ ap (λ g. update g k (some v)) d.1)

  -- On a valid cache, the eviction drops the first of the sorted pairs that reads find, sets the new entry
  -- and changes no other key; on an empty cache it panics.
  pub evict_lem :
      (t : BeTree K V) (k : K) (v : V)
      → IsValid t
      → (ps : List (K × V)) × Lists t (λ j. true) ps × Evicts t k v ps (evict t k v)
  unfolding evict
  evict_lem t k v a =
      let l = materialize_all_lem t.root none none a in
      (
        materialize_all t.root,
        (l.0, λ j. l.1 j ∙ ap (λ f. f j) (sym (get-eval t a))),
        go (materialize_all t.root),
      )
    where
      go :
          (ps : List (K × V))
          → Evicts t k v ps (elim (current (next (cursor_of ps)).0) [
            | none ↦ none
            | some e ↦ some (put_key (delete_key t e.0).0 k v)
          ])
      go [] = refl
      go (e ∷ es) =
          let r = replaced t e.0 k v a in (put_key (delete_key t e.0).0 k v, refl, r.0, r.1)

  -- On a valid cache, a re-access removes the old entry and sets the new one.
  pub get-touch :
      (t : BeTree K V) (old k : K) (v : V)
      → IsValid t
      → IsValid (touch t old k v)
        × (get (touch t old k v) ≡ update (update (get t) old none) k (some v))
  unfolding touch
  get-touch t old k v a = replaced t old k v a
