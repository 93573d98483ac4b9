-- ===== src/Count/Totals.antt =====
-- flush.go, flushNode: the counters of a node, and of its children, around the messages that it takes in.
use fractaltree.Prelude.{◌+◌, ◌≡◌, refl, List, [], ◌∷◌, arith, length}
use fractaltree.Order.{Ord}
use fractaltree.Message.{Message}
use fractaltree.Node.{Node, Children, cons}
use fractaltree.Apply.{Counters}
use fractaltree.Count.{
  total, tally, tally_children, counted, deleting, one_each, none_each, added, pending,
}
use fractaltree.Count.Leaf.{Tracks}

module _ {ℓ κ} {K : Type ℓ} {V : Type κ} ⦃o : Ord K⦄ where
  -- the counters of a node that has taken in messages
  abbrev pub NodeTracks : Node K V → List (Message K V) → Node K V → Counters → Counters → Type 0
  NodeTracks n msgs r c c' =
      Tracks (added n + total counted msgs) (pending n + total deleting msgs) (added r) (pending r)
        c c'

  -- the same of children
  abbrev pub ChildrenTrack :
      Children K V → List (Message K V) → Children K V → Counters → Counters → Type 0
  ChildrenTrack cs msgs r c c' =
      Tracks (tally_children one_each counted cs + total counted msgs)
        (tally_children none_each deleting cs + total deleting msgs)
        (tally_children one_each counted r) (tally_children none_each deleting r) c c'

  pub total-one_each : (es : List (K × V)) → total one_each es ≡ length es
  total-one_each [] = refl
  total-one_each (e ∷ es) = omega (arith, total-one_each es)

  pub total-none_each : (es : List (K × V)) → total none_each es ≡ 0
  total-none_each [] = refl
  total-none_each (e ∷ es) = omega (arith, total-none_each es)

  pub track_first :
      (n r : Node K V) (cs : Children K V) (msgs : List (Message K V)) (c c' : Counters)
      → NodeTracks n msgs r c c'
      → ChildrenTrack (cons n cs) msgs (cons r cs) c c'
  unfolding tally
  track_first n r cs msgs c c' t = record {
    size = omega (arith, t.size);
    deletes = omega (arith, t.deletes);
  }

  pub track_later :
      (n : Node K V) (cs r : Children K V) (msgs : List (Message K V)) (c c' : Counters)
      → ChildrenTrack cs msgs r c c'
      → ChildrenTrack (cons n cs) msgs (cons n r) c c'
  unfolding tally
  track_later n cs r msgs c c' t = record {
    size = omega (arith, t.size);
    deletes = omega (arith, t.deletes);
  }
