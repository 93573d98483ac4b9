-- ===== src/Disk.antt =====
-- disktree.go: the tree with a storage backend. The backend is an argument: its operations act on a
-- state `S`. Every operation but Close passes to the tree in memory.
pub mod Laws
pub mod Make
use fractaltree.Prelude.{ℕ, Bool, Option, none, some, List, [], ◌∷◌, ◌++◌}
use fractaltree.Prelude.Int.{ℤ}
use fractaltree.Order.{Ord}
use fractaltree.Message.{Zero, UpsertFn}
use fractaltree.Codec.{Bytes, Result, Codec, Gob, gob_codec}
use fractaltree.Options.{
  Floats, Setting, with_epsilon, with_block_size, Made, failed, made, new_with_compare,
}
use fractaltree.Tree.{
  BeTree, get, contains, len, put_key, delete_key, upsert_key, put_if_absent, clear, close,
}
use fractaltree.DeleteRange.{delete_range}
use fractaltree.Sequence.{Seq2, all, ascend, descend, range, descend_range, cursor}
use fractaltree.Cursor.{Cursor}

pub record Flusher {ℓ κ} (E : Type ℓ) (S : Type κ) : Type (ℓ ⊔ κ) where
  pub write_node : ℕ → Bytes → S → S × Option E
  pub read_node : ℕ → S → S × Result E Bytes
  pub sync : S → S × Option E
  pub close_flusher : S → S × Option E

pub record DiskTree {ℓ κ μ ν} (K : Type ℓ) (V : Type κ) (E : Type μ) (S : Type ν)
    : Type (ℓ ⊔ κ ⊔ μ ⊔ ν) where
  pub tree : BeTree K V
  pub flusher : Flusher E S
  pub storage : S
  pub key_codec : Codec E K
  pub value_codec : Codec E V

pub record DiskOptions {ℓ κ μ ν} (K : Type ℓ) (V : Type κ) (E : Type μ) (F : Type ν)
    : Type (ℓ ⊔ κ ⊔ μ ⊔ ν) where
  pub tree_settings : List (Setting F)
  pub key_codec : Codec E K
  pub value_codec : Codec E V

-- the type `DiskOption`
abbrev pub DiskSetting {ℓ κ μ ν} : Type ℓ → Type κ → Type μ → Type ν → Type (ℓ ⊔ κ ⊔ μ ⊔ ν)
DiskSetting K V E F = DiskOptions K V E F → DiskOptions K V E F

module _ {ℓ κ μ ν} {K : Type ℓ} {V : Type κ} {E : Type μ} {F : Type ν} where
  abbrev pub with_key_codec : Codec E K → DiskSetting K V E F
  with_key_codec c options = record options { key_codec = c }

  abbrev pub with_value_codec : Codec E V → DiskSetting K V E F
  with_value_codec c options = record options { value_codec = c }

  abbrev pub with_disk_epsilon : F → DiskSetting K V E F
  with_disk_epsilon eps options = record options {
    tree_settings = options.tree_settings ++ with_epsilon eps ∷ [];
  }

  abbrev pub with_disk_block_size : ℤ → DiskSetting K V E F
  with_disk_block_size size options = record options {
    tree_settings = options.tree_settings ++ with_block_size size ∷ [];
  }

  abbrev pub apply_disk_settings :
      List (DiskSetting K V E F) → DiskOptions K V E F → DiskOptions K V E F
  apply_disk_settings [] options = options
  apply_disk_settings (f ∷ fs) options = apply_disk_settings fs (f options)

  unfoldable pub resolve_disk_options :
      Gob E K → Gob E V → List (DiskSetting K V E F) → DiskOptions K V E F
  unfolding gob_codec
  resolve_disk_options key_gob value_gob fs = apply_disk_settings fs (record {
    tree_settings = [];
    key_codec = gob_codec key_gob;
    value_codec = gob_codec value_gob;
  })

module _ {ℓ κ μ ν ξ} {K : Type ℓ} {V : Type κ} {E : Type μ} {F : Type ν} {S : Type ξ}
    (fl : Floats F) (key_gob : Gob E K) (value_gob : Gob E V) where
  unfoldable pub new_disk_with_compare :
      Option (Ord K)
      → Flusher E S
      → S
      → List (DiskSetting K V E F)
      → Made (DiskTree K V E S × Ord K)
  unfolding resolve_disk_options new_with_compare
  new_disk_with_compare compare f storage fs =
      let options = resolve_disk_options key_gob value_gob fs in
      elim (new_with_compare {V = V} fl compare options.tree_settings) [
        | failed e ↦ failed e
        | made t ↦ made (
          record {
            tree = t.0;
            flusher = f;
            storage = storage;
            key_codec = options.key_codec;
            value_codec = options.value_codec;
          },
          t.1,
        )
      ]

  -- `NewDisk`, whose comparator is that of the key type
  unfoldable pub new_disk :
      ⦃o : Ord K⦄ → Flusher E S → S → List (DiskSetting K V E F) → Made (DiskTree K V E S × Ord K)
  unfolding new_disk_with_compare
  new_disk ⦃o = o⦄ f storage fs = new_disk_with_compare (some o) f storage fs

-- the errors that Close wraps
pub data CloseError {μ} (E : Type μ) : Type μ where
  sync_failed : E → CloseError E
  close_failed : E → CloseError E

module _ {ℓ κ μ ξ} {K : Type ℓ} {V : Type κ} {E : Type μ} {S : Type ξ} where
  abbrev pub with_tree : DiskTree K V E S → BeTree K V → DiskTree K V E S
  with_tree d t = record d { tree = t }

  -- after a Sync without an error
  abbrev pub close_synced : DiskTree K V E S → DiskTree K V E S × Option (CloseError E)
  close_synced d =
      let (storage', err) = d.flusher.close_flusher d.storage in
      elim err [
        | some e ↦ (record d { storage = storage' }, some (close_failed e))
        | none ↦ (record d { storage = storage'; tree = close d.tree }, none)
      ]

  unfoldable pub close_disk : DiskTree K V E S → DiskTree K V E S × Option (CloseError E)
  unfolding close
  close_disk d =
      let (storage', err) = d.flusher.sync d.storage in
      elim err [
        | some e ↦ (record d { storage = storage' }, some (sync_failed e))
        | none ↦ close_synced (record d { storage = storage' })
      ]

module _ {ℓ κ μ ξ} {K : Type ℓ} {V : Type κ} {E : Type μ} {S : Type ξ} ⦃z : Zero V⦄
    ⦃o : Ord K⦄ where
  abbrev pub disk_put : DiskTree K V E S → K → V → DiskTree K V E S
  disk_put d k v = with_tree d (put_key d.tree k v)

  abbrev pub disk_get : DiskTree K V E S → K → Option V
  disk_get d k = get d.tree k

  abbrev pub disk_delete : DiskTree K V E S → K → DiskTree K V E S × Bool
  disk_delete d k = let (t, b) = delete_key d.tree k in (with_tree d t, b)

  abbrev pub disk_delete_range : DiskTree K V E S → K → K → DiskTree K V E S × ℕ
  disk_delete_range d lo hi = let (t, n) = delete_range d.tree lo hi in (with_tree d t, n)

  abbrev pub disk_contains : DiskTree K V E S → K → Bool
  disk_contains d k = contains d.tree k

  abbrev pub disk_len : DiskTree K V E S → ℤ
  disk_len d = len d.tree

  abbrev pub disk_clear : DiskTree K V E S → DiskTree K V E S
  disk_clear d = with_tree d (clear d.tree)

  abbrev pub disk_upsert : DiskTree K V E S → K → UpsertFn V → DiskTree K V E S
  disk_upsert d k f = with_tree d (upsert_key d.tree k f)

  abbrev pub disk_put_if_absent : DiskTree K V E S → K → V → DiskTree K V E S × Bool
  disk_put_if_absent d k v = let (t, b) = put_if_absent d.tree k v in (with_tree d t, b)

  abbrev pub disk_all {ρ} : {A : Type ρ} → DiskTree K V E S → Seq2 K V A
  disk_all d = all d.tree

  abbrev pub disk_ascend {ρ} : {A : Type ρ} → DiskTree K V E S → Seq2 K V A
  disk_ascend d = ascend d.tree

  abbrev pub disk_descend {ρ} : {A : Type ρ} → DiskTree K V E S → Seq2 K V A
  disk_descend d = descend d.tree

  abbrev pub disk_range {ρ} : {A : Type ρ} → DiskTree K V E S → K → K → Seq2 K V A
  disk_range d lo hi = range d.tree lo hi

  abbrev pub disk_descend_range {ρ} : {A : Type ρ} → DiskTree K V E S → K → K → Seq2 K V A
  disk_descend_range d hi lo = descend_range d.tree hi lo

  abbrev pub disk_cursor : DiskTree K V E S → Cursor K V
  disk_cursor d = cursor d.tree
