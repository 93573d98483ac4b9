-- ===== src/Ordered/Congr.antt =====
-- Keys that compare equal hold the same value.
use fractaltree.Prelude.{◌≡◌, refl, ap, ◌∙◌, eq, List, [], ◌∷◌, arith}
use fractaltree.Order.{Ord, eq_right}
use fractaltree.Message.Replay.{replay-congr, replay}
use fractaltree.Node.{Node, leaf, internal, Children, nil, cons}
use fractaltree.Node.Entries.{lookup-congr}
use fractaltree.Ordered.{eval, eval_at}

module _ {ℓ κ} {K : Type ℓ} {V : Type κ} ⦃o : Ord K⦄ where
  mutual
    unfolding eval

    eval_congr : (n : Node K V) (j k : K) → o.cmp j k ≡ eq → eval n j ≡ eval n k
    eval_congr (leaf es) j k e = lookup-congr es j k e
    eval_congr (internal ps cs buf s) j k e =
        replay-congr j k buf (eval_at ps cs j) e ∙ ap (replay k buf) (eval_at_congr cs ps j k e)

    eval_at_congr :
        (cs : Children K V) (ps : List K) (j k : K)
        → o.cmp j k ≡ eq
        → eval_at ps cs j ≡ eval_at ps cs k
    eval_at_congr nil ps j k e = refl
    eval_at_congr (cons c cs) [] j k e = eval_congr c j k e
    eval_at_congr (cons c cs) (p ∷ ps) j k e =
        ground (arith, eq_right j k p e, eval_congr c j k e, eval_at_congr cs ps j k e)

  pub eval-congr : (n : Node K V) (j k : K) → o.cmp j k ≡ eq → eval n j ≡ eval n k
  eval-congr n j k e = eval_congr n j k e
