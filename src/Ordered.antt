-- ===== src/Ordered.antt =====
-- The search-tree invariant of node.go (findChildIndex states the routing rule), and the value that
-- a tree holds at a key when every pending message is replayed, the oldest first.
pub mod Route
pub mod Congr
use fractaltree.Prelude.{◌≡◌, true, false, Option, none, some, List, [], ◌∷◌, All}
use fractaltree.Order.{Ord, ◌≺◌, ◌≼◌, is_le}
use fractaltree.Message.{Message, key_of}
use fractaltree.Message.Replay.{IsPoint, replay}
use fractaltree.Node.{Node, leaf, internal, Children, nil, cons}
use fractaltree.Node.Entries.{lookup, IsSorted}
use fractaltree.Node.Buffer.{IsBufferSorted}

module _ {ℓ} {K : Type ℓ} ⦃o : Ord K⦄ where
  -- `none` is no bound
  abbrev pub IsAtLeast : Option K → K → Type 0
  IsAtLeast none k = Unit
  IsAtLeast (some lo) k = lo ≼ k

  abbrev pub IsLess : K → Option K → Type 0
  IsLess k none = Unit
  IsLess k (some hi) = k ≺ hi

  abbrev pub IsAtMost : K → Option K → Type 0
  IsAtMost k none = Unit
  IsAtMost k (some hi) = k ≼ hi

  abbrev pub InRange : Option K → Option K → K → Type 0
  InRange lo hi k = IsAtLeast lo k × IsLess k hi

  -- where a pivot may lie
  abbrev pub InSpan : Option K → Option K → K → Type 0
  InSpan lo hi p = IsAtLeast lo p × IsAtMost p hi

module _ {ℓ κ} {K : Type ℓ} {V : Type κ} ⦃o : Ord K⦄ where
  -- keys within the bounds, and no range deletion, which no operation buffers
  abbrev pub Fits : Option K → Option K → Message K V → Type 0
  Fits lo hi m = InRange lo hi (key_of m) × IsPoint m

  unfoldable mutual
    -- Keys, pivots and buffered messages lie within the bounds that the pivots above them set.
    pub IsOrdered : Option K → Option K → Node K V → Type 0
    IsOrdered lo hi (leaf es) = All (λ e. InRange lo hi e.0) es × IsSorted es
    IsOrdered lo hi (internal ps cs buf s) =
        All (Fits lo hi) buf × (s ≡ true → IsBufferSorted buf) × AreOrdered lo hi ps cs

    -- There is one child more than there are pivots.
    pub AreOrdered : Option K → Option K → List K → Children K V → Type 0
    AreOrdered lo hi ps nil = ⊥
    AreOrdered lo hi [] (cons c nil) = IsOrdered lo hi c
    AreOrdered lo hi [] (cons c (cons d cs)) = ⊥
    AreOrdered lo hi (p ∷ ps) (cons c cs) =
        InSpan lo hi p × IsOrdered lo (some p) c × AreOrdered (some p) hi ps cs

  unfoldable mutual
    -- the value at a key: what the leaf holds, changed by the messages from the leaf up to the root
    pub eval : Node K V → K → Option V
    eval (leaf es) k = lookup es k
    eval (internal ps cs buf s) k = replay k buf (eval_at ps cs k)

    -- the child left of the first pivot above the key
    pub eval_at : List K → Children K V → K → Option V
    eval_at ps nil k = none
    eval_at [] (cons c cs) k = eval c k
    eval_at (p ∷ ps) (cons c cs) k = elim (is_le (o.cmp p k)) [
      | true ↦ eval_at ps cs k
      | false ↦ eval c k
    ]
