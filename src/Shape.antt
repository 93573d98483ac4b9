-- ===== src/Shape.antt =====
-- flush.go and options.go: the shape of the tree. Splits are made so that all leaves stay at one depth and
-- no internal node keeps more than `fanout` children.
pub mod Split
pub mod Flush
pub mod Receive
pub mod Root
pub mod Calls
pub mod Buffer
use fractaltree.Prelude.{ℕ, zero, suc, ◌≤◌}
use fractaltree.Node.{Node, leaf, internal, Children, nil, cons, num_children}

module _ {ℓ κ} {K : Type ℓ} {V : Type κ} (fanout : ℕ) where
  unfoldable mutual
    -- all leaves at a depth, and no more children anywhere than the fanout
    pub IsShaped : ℕ → Node K V → Type 0
    IsShaped zero (leaf es) = Unit
    IsShaped (suc d) (leaf es) = ⊥
    IsShaped zero (internal ps cs buf s) = ⊥
    IsShaped (suc d) (internal ps cs buf s) = (num_children cs ≤ fanout) × AreShaped d cs

    pub AreShaped : ℕ → Children K V → Type 0
    AreShaped d nil = Unit
    AreShaped d (cons c cs) = IsShaped d c × AreShaped d cs

  -- the same, but for one child too many at the top
  unfoldable pub IsWide : ℕ → Node K V → Type 0
  unfolding IsShaped
  IsWide zero (leaf es) = Unit
  IsWide (suc d) (leaf es) = ⊥
  IsWide zero (internal ps cs buf s) = ⊥
  IsWide (suc d) (internal ps cs buf s) = (num_children cs ≤ suc fanout) × AreShaped d cs

  -- children of which the one at an index may have a child too many
  unfoldable pub AreWideAt : ℕ → ℕ → Children K V → Type 0
  unfolding IsShaped IsWide
  AreWideAt d h nil = Unit
  AreWideAt d zero (cons c cs) = IsWide d c × AreShaped d cs
  AreWideAt d (suc h) (cons c cs) = IsShaped d c × AreWideAt d h cs
