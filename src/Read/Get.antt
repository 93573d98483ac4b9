-- ===== src/Read/Get.antt =====
-- tree.go, getFromNode: the newest-first walk with early exits against the replay of every message.
use fractaltree.Prelude.{
  ℕ, ◌≡◌, refl, sym, ap, ap₂, ◌∙◌, Option, none, some, List, [], ◌∷◌, ◌++◌, arith, select,
}
use fractaltree.Order.{Ord, is_eq}
use fractaltree.Message.{UpsertFn, Message, key_of, put, delete, delete_range, upsert}
use fractaltree.Message.Replay.{effect, replay_all, replay-select}
use fractaltree.Node.{Node, leaf, internal, Children, nil, cons}
use fractaltree.Node.LeafSearch.{leaf_search-lookup}
use fractaltree.Node.Buffer.{buffer_messages_for_key_lem}
use fractaltree.Ordered.{IsOrdered, AreOrdered, eval, eval_at}
use fractaltree.Ordered.Route.{route, find_child_index_lem}
use fractaltree.Read.{
  Scan, resolved, collected, apply_upsert_chain, resolve_absent, scan_message, scan_messages,
  get_with_upserts, get_at, get_from_node,
}

module _ {κ} {V : Type κ} where
  chain-append :
      (b : Option V) (fns : List (UpsertFn V)) (f : UpsertFn V)
      → apply_upsert_chain b (fns ++ f ∷ []) ≡ apply_upsert_chain (some (f b)) fns
  unfolding apply_upsert_chain
  chain-append b [] f = refl
  chain-append b (g ∷ fns) f = ap (λ x. some (g x)) (chain-append b fns f)

  resolve_absent_lem : (fns : List (UpsertFn V)) → resolve_absent fns ≡ apply_upsert_chain none fns
  unfolding apply_upsert_chain
  resolve_absent_lem [] = refl
  resolve_absent_lem (f ∷ fns) = refl

  -- what the walk returns once the value below the buffer is known
  abbrev finish : Scan V → Option V → Option V
  finish (resolved r) b = r
  finish (collected fns) b = apply_upsert_chain b fns

module _ {ℓ κ} {K : Type ℓ} {V : Type κ} where
  finish-scan_message :
      (m : Message K V) (fns : List (UpsertFn V)) (b : Option V)
      → finish (scan_message m fns) b ≡ apply_upsert_chain (effect m b) fns
  unfolding scan_message
  finish-scan_message (put k v c) fns b = refl
  finish-scan_message (delete k) fns b = resolve_absent_lem fns
  finish-scan_message (delete_range k e) fns b = refl
  finish-scan_message (upsert k f) fns b = chain-append b fns f

  finish-scan_messages :
      (ms : List (Message K V)) (fns : List (UpsertFn V)) (b : Option V)
      → finish (scan_messages ms fns) b ≡ apply_upsert_chain (replay_all ms b) fns
  unfolding scan_messages
  finish-scan_messages [] fns b = refl
  finish-scan_messages (m ∷ ms) fns b =
      go (scan_messages ms fns) (finish-scan_messages ms fns (effect m b))
    where
      go :
          (s : Scan V)
          → finish s (effect m b) ≡ apply_upsert_chain (replay_all ms (effect m b)) fns
          → finish (elim s [ resolved r ↦ resolved r | collected fns' ↦ scan_message m fns' ]) b
            ≡ apply_upsert_chain (replay_all ms (effect m b)) fns
      go (resolved r) e = e
      go (collected fns') e = finish-scan_message m fns' b ∙ e

module _ {ℓ κ} {K : Type ℓ} {V : Type κ} ⦃o : Ord K⦄ where
  get_leaf_lem :
      (es : List (K × V)) (k : K) (fns : List (UpsertFn V)) (lo hi : Option K)
      → IsOrdered lo hi (leaf es)
      → get_with_upserts (leaf es) k fns ≡ apply_upsert_chain (eval (leaf es) k) fns
  unfolding get_with_upserts eval IsOrdered
  get_leaf_lem es k fns lo hi a =
      ground (arith, leaf_search-lookup es k a.1, resolve_absent_lem fns)

  -- the walk of an internal node, at the messages and the child index that it computes
  abbrev walk : Children K V → K → List (UpsertFn V) → List (Message K V) → ℕ → Option V
  walk cs k fns ms i = elim (scan_messages ms fns) [
    | resolved x ↦ x
    | collected fns' ↦ get_at cs i k fns'
  ]

  finish_lem :
      (r : Scan V) (cs : Children K V) (ps : List K) (k : K) {b : Option V}
      → finish r (eval_at ps cs k) ≡ b
      → ((fns : List (UpsertFn V))
          → get_at cs (route ps k) k fns ≡ apply_upsert_chain (eval_at ps cs k) fns)
      → (elim r [ resolved x ↦ x | collected fns ↦ get_at cs (route ps k) k fns ]) ≡ b
  finish_lem (resolved x) cs ps k e h = e
  finish_lem (collected fns) cs ps k e h = h fns ∙ e

  mutual
    unfolding get_with_upserts eval IsOrdered

    get_with_upserts_lem :
        (n : Node K V) (k : K) (fns : List (UpsertFn V)) (lo hi : Option K)
        → IsOrdered lo hi n
        → get_with_upserts n k fns ≡ apply_upsert_chain (eval n k) fns
    get_with_upserts_lem (leaf es) k fns lo hi a = get_leaf_lem es k fns lo hi a
    get_with_upserts_lem (internal ps cs buf s) k fns lo hi a =
        ap₂ (walk cs k fns) (buffer_messages_for_key_lem buf s k a.1)
          (find_child_index_lem lo hi ps cs k a.2)
        ∙ (finish_lem (scan_messages (select (λ m. is_eq (o.cmp (key_of m) k)) buf) fns) cs ps k
              (finish-scan_messages (select (λ m. is_eq (o.cmp (key_of m) k)) buf) fns
                (eval_at ps cs k))
              (λ fns'. get_at_lem cs ps k fns' lo hi a.2)
            ∙ ap (λ b. apply_upsert_chain b fns) (sym (replay-select k buf (eval_at ps cs k))))

    get_at_lem :
        (cs : Children K V) (ps : List K) (k : K) (fns : List (UpsertFn V)) (lo hi : Option K)
        → AreOrdered lo hi ps cs
        → get_at cs (route ps k) k fns ≡ apply_upsert_chain (eval_at ps cs k) fns
    get_at_lem nil ps k fns lo hi a = absurd a
    get_at_lem (cons c nil) [] k fns lo hi a = get_with_upserts_lem c k fns lo hi a
    get_at_lem (cons c (cons d cs)) [] k fns lo hi a = absurd a
    get_at_lem (cons c cs) (p ∷ ps) k fns lo hi a = ground (
      arith,
      get_with_upserts_lem c k fns lo (some p) a.1,
      get_at_lem cs ps k fns (some p) hi a.2,
    )

  -- On an ordered tree a read returns what replaying every pending message on the leaf's value gives.
  pub get_from_node_lem :
      (n : Node K V) (k : K) (lo hi : Option K) → IsOrdered lo hi n → get_from_node n k ≡ eval n k
  unfolding get_from_node apply_upsert_chain
  get_from_node_lem n k lo hi a = get_with_upserts_lem n k [] lo hi a
