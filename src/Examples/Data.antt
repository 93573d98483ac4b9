-- ===== src/Examples/Data.antt =====
-- The trees, nodes, entries and messages of the examples.
use fractaltree.Prelude.{ℕ, ◌+◌, false, true, none, some, List, [], ◌∷◌, arith, All}
use fractaltree.Order.{nat_ord}
use fractaltree.Message.{Message, UpsertFn, Zero, put, delete, upsert}
use fractaltree.Message.Replay.{IsPoint}
use fractaltree.Node.{Node, leaf, internal, Children, nil, cons}
use fractaltree.Node.Entries.{IsSorted}
use fractaltree.Ordered.{IsOrdered, AreOrdered}
use fractaltree.Flush.{TreeParams}
use fractaltree.Tree.{BeTree, new}
use fractaltree.Tree.Laws.{IsValid}
use fractaltree.Client.{Op, put_op, delete_op, upsert_op, absent_op, get_op, contains_op, run}
use fractaltree.Client.Refines.{run-run_map}

instance abbrev pub nat_zero : Zero ℕ
nat_zero = record { zero_value = 0 }

-- small bounds, so that a few calls flush and split
abbrev pub small : TreeParams
small = record { fanout = 2; buffer_cap = 1; leaf_cap = 2 }

abbrev pub plus_one : UpsertFn ℕ
plus_one none = 1
plus_one (some v) = v + 1

abbrev pub calls : List (Op ℕ ℕ)
calls =
    put_op 5 50
    ∷ put_op 2 20
    ∷ put_op 8 80
    ∷ put_op 6 60
    ∷ delete_op 2
    ∷ upsert_op 5 plus_one
    ∷ absent_op 9 90
    ∷ upsert_op 7 plus_one
    ∷ put_op 3 30
    ∷ get_op 5
    ∷ contains_op 2
    ∷ []

abbrev pub empty : BeTree ℕ ℕ
empty = new small

pub empty-IsValid : IsValid empty
unfolding new IsOrdered
empty-IsValid = (tt, tt)

-- a tree of several levels with pending messages
abbrev pub grown : BeTree ℕ ℕ
grown = (run calls empty).0

pub grown-IsValid : IsValid grown
grown-IsValid = (run-run_map calls empty empty-IsValid).0

abbrev pub entries : List (ℕ × ℕ)
entries = (1, 10) ∷ (3, 30) ∷ (5, 50) ∷ []

pub entries-IsSorted : IsSorted entries
unfolding nat_ord
entries-IsSorted = ground arith

abbrev pub puts : List (Message ℕ ℕ)
puts = put 0 1 false ∷ put 3 31 false ∷ put 4 40 true ∷ []

abbrev pub batch : List (Message ℕ ℕ)
batch = put 7 70 true ∷ upsert 3 plus_one ∷ delete 5 ∷ put 3 33 false ∷ upsert 3 plus_one ∷ []

pub batch-IsPoint : All IsPoint batch
batch-IsPoint = ground arith

abbrev pub pivots : List ℕ
pivots = 4 ∷ 6 ∷ []

abbrev pub children : Children ℕ ℕ
children =
    cons (leaf ((1, 10) ∷ (3, 30) ∷ []))
      (cons (leaf ((5, 50) ∷ [])) (cons (leaf ((6, 60) ∷ (8, 80) ∷ (9, 90) ∷ [])) nil))

abbrev pub pending : List (Message ℕ ℕ)
pending = put 3 31 false ∷ delete 8 ∷ upsert 9 plus_one ∷ upsert 3 plus_one ∷ []

pub children-AreOrdered : AreOrdered none none pivots children
unfolding AreOrdered IsOrdered nat_ord
children-AreOrdered = ground arith

abbrev pub inner : Node ℕ ℕ
inner = internal pivots children pending false

pub inner-IsOrdered : IsOrdered none none inner
unfolding IsOrdered nat_ord
inner-IsOrdered = (ground arith, λ e. cc, children-AreOrdered)
