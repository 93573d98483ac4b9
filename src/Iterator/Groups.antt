-- ===== src/Iterator/Groups.antt =====
-- iterator.go, resolveEntries: the groups of a sorted list, and the pairs that they give.
use fractaltree.Prelude.{
  ◌≡◌, ◌≢◌, refl, ap, ◌∙◌, append-nil, Ordering, true, false, lt, eq, gt, Option, none, some, List,
  [], ◌∷◌, ◌++◌, arith, select, select-append, All, All-snoc, append_assoc, Bool-cases, inl, inr,
}
use fractaltree.Order.{Ord, ◌≺◌, is_eq, eq_right, lt_le_trans}
use fractaltree.Node.Entries.{lookup, AllKeys, IsAbove, IsSorted}
use fractaltree.Iterator.{
  MergeEntry, resolve_key_entries, emit, resolve_entry_groups, resolve_sorted,
}
use fractaltree.Iterator.Sort.{concerns_entry, ComesBefore, IsEntrySorted}

module _ {ℓ κ} {K : Type ℓ} {V : Type κ} ⦃o : Ord K⦄ where
  -- entries of which none concerns the key
  pub select-none :
      (k : K) (es : List (MergeEntry K V))
      → All (λ e. concerns_entry k e ≡ false) es
      → select (concerns_entry k) es ≡ []
  select-none k [] a = refl
  select-none k (e ∷ es) a = ground (arith, select-none k es a.1)

  -- a group: entries whose key compares equal to the first one's
  abbrev IsGroup : K → List (MergeEntry K V) → Type 0
  IsGroup k es = All (λ e. o.cmp e.key k ≡ eq) es

  select-group_same :
      (k j : K) (es : List (MergeEntry K V))
      → IsGroup j es
      → o.cmp j k ≡ eq
      → select (concerns_entry k) es ≡ es
  select-group_same k j [] g e = refl
  select-group_same k j (x ∷ xs) g e =
      ground (arith, select-group_same k j xs g.1 e, o.eq_left x.key j k)

  select-group_other :
      (k j : K) (es : List (MergeEntry K V))
      → IsGroup j es
      → is_eq (o.cmp j k) ≡ false
      → select (concerns_entry k) es ≡ []
  select-group_other k j [] g e = refl
  select-group_other k j (x ∷ xs) g e =
      ground (arith, select-group_other k j xs g.1 e, o.eq_left x.key j k)

  abbrev KeysAbove : K → List (MergeEntry K V) → Type 0
  KeysAbove k es = All (λ e. k ≺ e.key) es

  KeysAbove-trans :
      (j : K) (e : MergeEntry K V) (es : List (MergeEntry K V))
      → j ≺ e.key
      → All (ComesBefore e) es
      → KeysAbove j es
  KeysAbove-trans j e [] h a = tt
  KeysAbove-trans j e (n ∷ ns) h a =
      (ground (arith, lt_le_trans j e.key n.key h), KeysAbove-trans j e ns h a.1)

  -- the next group starts above this one
  next_above :
      (first e : MergeEntry K V)
      → ComesBefore first e
      → is_eq (o.cmp e.key first.key) ≡ false
      → first.key ≺ e.key
  next_above first e b h = ground (arith, o.eq_sym first.key e.key)

  none_concerned :
      (k j : K) (es : List (MergeEntry K V))
      → o.cmp j k ≢ lt
      → KeysAbove j es
      → select (concerns_entry k) es ≡ []
  none_concerned k j [] h a = refl
  none_concerned k j (e ∷ es) h a = ground (
    arith,
    none_concerned k j es h a.1,
    o.eq_left e.key k j,
    o.eq_sym j k,
    o.gt_of_lt j e.key,
    eq_right e.key k j,
  )

  emit_among_equal :
      (j k : K) (r : Option V) (rest : List (K × V))
      → o.cmp j k ≡ eq
      → lookup rest k ≡ none
      → lookup (emit j r rest) k ≡ r
  unfolding lookup
  emit_among_equal j k none rest e h = h
  emit_among_equal j k (some v) rest e h = ground arith

  emit_before :
      (j k : K) (r : Option V) (rest : List (K × V))
      → o.cmp j k ≡ lt
      → lookup (emit j r rest) k ≡ lookup rest k
  unfolding lookup
  emit_before j k none rest e = refl
  emit_before j k (some v) rest e = ground arith

  emit_after :
      (j k : K) (r : Option V) (rest : List (K × V))
      → o.cmp j k ≡ gt
      → lookup rest k ≡ none
      → lookup (emit j r rest) k ≡ none
  unfolding lookup
  emit_after j k none rest e h = h
  emit_after j k (some v) rest e h = ground arith

  groups_same :
      (first e : MergeEntry K V) (group es : List (MergeEntry K V))
      → is_eq (o.cmp e.key first.key) ≡ true
      → resolve_entry_groups first group (e ∷ es) ≡ resolve_entry_groups first (group ++ e ∷ []) es
  unfolding resolve_entry_groups
  groups_same first e group es h = ground arith

  groups_next :
      (first e : MergeEntry K V) (group es : List (MergeEntry K V))
      → is_eq (o.cmp e.key first.key) ≡ false
      → resolve_entry_groups first group (e ∷ es)
        ≡ emit first.key (resolve_key_entries (first ∷ group)) (resolve_entry_groups e [] es)
  unfolding resolve_entry_groups
  groups_next first e group es h = ground arith

  emit-AllKeys :
      (P : K → Type 0) (k : K) (r : Option V) (rest : List (K × V))
      → P k
      → AllKeys P rest
      → AllKeys P (emit k r rest)
  emit-AllKeys P k none rest h a = a
  emit-AllKeys P k (some v) rest h a = (h, a)

  emit-IsSorted :
      (k : K) (r : Option V) (rest : List (K × V))
      → IsAbove k rest
      → IsSorted rest
      → IsSorted (emit k r rest)
  emit-IsSorted k none rest a s = s
  emit-IsSorted k (some v) rest a s = (a, s)

  resolve_entry_groups-AllKeys :
      (P : K → Type 0) (first : MergeEntry K V) (group es : List (MergeEntry K V))
      → P first.key
      → All (λ e. P e.key) es
      → AllKeys P (resolve_entry_groups first group es)
  unfolding resolve_entry_groups
  resolve_entry_groups-AllKeys P first group [] h a =
      emit-AllKeys P first.key (resolve_key_entries (first ∷ group)) [] h tt
  resolve_entry_groups-AllKeys P first group (e ∷ es) h a =
      elim (Bool-cases (is_eq (o.cmp e.key first.key))) [
        | inl g ↦
            rw (groups_same first e group es g)
              (resolve_entry_groups-AllKeys P first (group ++ e ∷ []) es h a.1)
        | inr g ↦ rw (groups_next first e group es g) (
            emit-AllKeys P first.key (resolve_key_entries (first ∷ group))
              (resolve_entry_groups e [] es) h (resolve_entry_groups-AllKeys P e [] es a.0 a.1))
      ]

  pub resolve_entry_groups-IsSorted :
      (first : MergeEntry K V) (group es : List (MergeEntry K V))
      → All (ComesBefore first) es
      → IsEntrySorted es
      → IsSorted (resolve_entry_groups first group es)
  unfolding resolve_entry_groups
  resolve_entry_groups-IsSorted first group [] b s =
      emit-IsSorted first.key (resolve_key_entries (first ∷ group)) [] tt tt
  resolve_entry_groups-IsSorted first group (e ∷ es) b s =
      elim (Bool-cases (is_eq (o.cmp e.key first.key))) [
        | inl g ↦
            rw (groups_same first e group es g)
              (resolve_entry_groups-IsSorted first (group ++ e ∷ []) es b.1 s.1)
        | inr g ↦
            let h : first.key ≺ e.key = next_above first e b.0 g in
            rw (groups_next first e group es g) (
              emit-IsSorted first.key (resolve_key_entries (first ∷ group))
                (resolve_entry_groups e [] es)
                (resolve_entry_groups-AllKeys (λ x. first.key ≺ x) e [] es h
                  (KeysAbove-trans first.key e es h s.0))
                (resolve_entry_groups-IsSorted e [] es s.0 s.1))
      ]

  -- the value of a group's key, and of the keys behind it
  group_value :
      (k : K) (first : MergeEntry K V) (group rest : List (MergeEntry K V)) (ps : List (K × V))
      → IsGroup first.key (first ∷ group)
      → KeysAbove first.key rest
      → lookup ps k ≡ resolve_key_entries (select (concerns_entry k) rest)
      → lookup (emit first.key (resolve_key_entries (first ∷ group)) ps) k
        ≡ resolve_key_entries (select (concerns_entry k) ((first ∷ group) ++ rest))
  unfolding resolve_key_entries
  group_value k first group rest ps g a h =
      let j = first.key in
      let r = resolve_key_entries (first ∷ group) in
      rw (select-append (concerns_entry k) (first ∷ group) rest) (go (o.cmp j k) refl)
    where
      go :
          (c : Ordering)
          → o.cmp first.key k ≡ c
          → lookup (emit first.key (resolve_key_entries (first ∷ group)) ps) k
            ≡ resolve_key_entries
                (select (concerns_entry k) (first ∷ group) ++ select (concerns_entry k) rest)
      go lt e =
          rw (select-group_other k first.key (first ∷ group) g (ground arith))
            (emit_before first.key k (resolve_key_entries (first ∷ group)) ps e ∙ h)
      go eq e =
          let z = none_concerned k first.key rest (ground arith) a in
          rw (select-group_same k first.key (first ∷ group) g e, z, append-nil group)
            (emit_among_equal first.key k (resolve_key_entries (first ∷ group)) ps e
              (h ∙ ap resolve_key_entries z))
      go gt e =
          let z = none_concerned k first.key rest (ground arith) a in
          rw (select-group_other k first.key (first ∷ group) g (ground arith), z)
            (emit_after first.key k (resolve_key_entries (first ∷ group)) ps e
              (h ∙ ap resolve_key_entries z))

  lookup-resolve_entry_groups :
      (k : K) (first : MergeEntry K V) (group es : List (MergeEntry K V))
      → IsGroup first.key group
      → All (ComesBefore first) es
      → IsEntrySorted es
      → lookup (resolve_entry_groups first group es) k
        ≡ resolve_key_entries (select (concerns_entry k) ((first ∷ group) ++ es))
  unfolding resolve_entry_groups lookup resolve_key_entries
  lookup-resolve_entry_groups k first group [] g b s =
      group_value k first group [] [] (o.cmp_refl first.key, g) tt refl
  lookup-resolve_entry_groups k first group (e ∷ es) g b s =
      elim (Bool-cases (is_eq (o.cmp e.key first.key))) [
        | inl h ↦
            let h' : o.cmp e.key first.key ≡ eq = ground arith in
            rw (groups_same first e group es h) (
              lookup-resolve_entry_groups k first (group ++ e ∷ []) es
                (All-snoc (λ x. o.cmp x.key first.key ≡ eq) group e g h') b.1 s.1
              ∙ ap (λ x. resolve_key_entries (select (concerns_entry k) (first ∷ x)))
                  (append_assoc group (e ∷ []) es))
        | inr h ↦
            let l : first.key ≺ e.key = next_above first e b.0 h in
            rw (groups_next first e group es h) (
              group_value k first group (e ∷ es) (resolve_entry_groups e [] es)
                (o.cmp_refl first.key, g) (l, KeysAbove-trans first.key e es l s.0)
                (lookup-resolve_entry_groups k e [] es tt s.0 s.1))
      ]

  pub lookup-resolve_sorted :
      (k : K) (es : List (MergeEntry K V))
      → IsEntrySorted es
      → lookup (resolve_sorted es) k ≡ resolve_key_entries (select (concerns_entry k) es)
  unfolding lookup resolve_key_entries
  lookup-resolve_sorted k [] s = refl
  lookup-resolve_sorted k (e ∷ es) s = lookup-resolve_entry_groups k e [] es tt s.0 s.1

  pub resolve_sorted-IsSorted :
      (es : List (MergeEntry K V)) → IsEntrySorted es → IsSorted (resolve_sorted es)
  resolve_sorted-IsSorted [] s = tt
  resolve_sorted-IsSorted (e ∷ es) s = resolve_entry_groups-IsSorted e [] es s.0 s.1

  pub resolve_sorted-AllKeys :
      (P : K → Type 0) (es : List (MergeEntry K V))
      → All (λ e. P e.key) es
      → AllKeys P (resolve_sorted es)
  resolve_sorted-AllKeys P [] a = tt
  resolve_sorted-AllKeys P (e ∷ es) a = resolve_entry_groups-AllKeys P e [] es a.0 a.1
