-- ===== src/Disk/Make.antt =====
-- disktree.go, the constructors: a disk tree is made exactly when its tree is, from the same settings.
use fractaltree.Prelude.{
  ◌≡◌, refl, ap, sym, ◌∙◌, Option, List, [], ◌∷◌, ◌++◌, append_assoc, append-nil,
}
use fractaltree.Prelude.Int.{ℤ}
use fractaltree.Order.{Ord}
use fractaltree.Codec.{Codec, Gob, gob_codec}
use fractaltree.Options.{
  Floats, Setting, with_epsilon, with_block_size, Made, failed, made, new_with_compare,
}
use fractaltree.Tree.{BeTree}
use fractaltree.Disk.{
  Flusher, DiskTree, DiskOptions, DiskSetting, with_key_codec, with_value_codec, with_disk_epsilon,
  with_disk_block_size, apply_disk_settings, resolve_disk_options, new_disk_with_compare,
}

-- the options that the package offers
pub data DiskChoice {ℓ κ μ ν} (K : Type ℓ) (V : Type κ) (E : Type μ) (F : Type ν)
    : Type (ℓ ⊔ κ ⊔ μ ⊔ ν) where
  key_choice : Codec E K → DiskChoice K V E F
  value_choice : Codec E V → DiskChoice K V E F
  epsilon_choice : F → DiskChoice K V E F
  block_choice : ℤ → DiskChoice K V E F

module _ {ℓ κ μ ν} {K : Type ℓ} {V : Type κ} {E : Type μ} {F : Type ν} where
  abbrev pub setting_of : DiskChoice K V E F → DiskSetting K V E F
  setting_of (key_choice c) = with_key_codec c
  setting_of (value_choice c) = with_value_codec c
  setting_of (epsilon_choice e) = with_disk_epsilon e
  setting_of (block_choice n) = with_disk_block_size n

  abbrev pub settings_of : List (DiskChoice K V E F) → List (DiskSetting K V E F)
  settings_of [] = []
  settings_of (c ∷ cs) = setting_of c ∷ settings_of cs

  -- the settings of the tree among them, in order
  abbrev pub tree_settings_of : List (DiskChoice K V E F) → List (Setting F)
  tree_settings_of [] = []
  tree_settings_of (key_choice c ∷ cs) = tree_settings_of cs
  tree_settings_of (value_choice c ∷ cs) = tree_settings_of cs
  tree_settings_of (epsilon_choice e ∷ cs) = with_epsilon e ∷ tree_settings_of cs
  tree_settings_of (block_choice n ∷ cs) = with_block_size n ∷ tree_settings_of cs

  -- the last codec chosen, or the one before all choices
  abbrev pub last_key_codec : Codec E K → List (DiskChoice K V E F) → Codec E K
  last_key_codec d [] = d
  last_key_codec d (key_choice c ∷ cs) = last_key_codec c cs
  last_key_codec d (value_choice c ∷ cs) = last_key_codec d cs
  last_key_codec d (epsilon_choice e ∷ cs) = last_key_codec d cs
  last_key_codec d (block_choice n ∷ cs) = last_key_codec d cs

  abbrev pub last_value_codec : Codec E V → List (DiskChoice K V E F) → Codec E V
  last_value_codec d [] = d
  last_value_codec d (key_choice c ∷ cs) = last_value_codec d cs
  last_value_codec d (value_choice c ∷ cs) = last_value_codec c cs
  last_value_codec d (epsilon_choice e ∷ cs) = last_value_codec d cs
  last_value_codec d (block_choice n ∷ cs) = last_value_codec d cs

  apply_disk_settings_lem :
      (cs : List (DiskChoice K V E F)) (o : DiskOptions K V E F)
      → apply_disk_settings (settings_of cs) o ≡ record {
        tree_settings = o.tree_settings ++ tree_settings_of cs;
        key_codec = last_key_codec o.key_codec cs;
        value_codec = last_value_codec o.value_codec cs;
      }
  apply_disk_settings_lem [] o =
      ap (λ s. record { tree_settings = s; key_codec = o.key_codec; value_codec = o.value_codec })
        (sym (append-nil o.tree_settings))
  apply_disk_settings_lem (key_choice c ∷ cs) o = apply_disk_settings_lem cs (with_key_codec c o)
  apply_disk_settings_lem (value_choice c ∷ cs) o =
      apply_disk_settings_lem cs (with_value_codec c o)
  apply_disk_settings_lem (epsilon_choice e ∷ cs) o =
      apply_disk_settings_lem cs (with_disk_epsilon e o)
      ∙ ap
          (λ s. record {
            tree_settings = s;
            key_codec = last_key_codec o.key_codec cs;
            value_codec = last_value_codec o.value_codec cs;
          })
          (append_assoc o.tree_settings (with_epsilon e ∷ []) (tree_settings_of cs))
  apply_disk_settings_lem (block_choice n ∷ cs) o =
      apply_disk_settings_lem cs (with_disk_block_size n o)
      ∙ ap
          (λ s. record {
            tree_settings = s;
            key_codec = last_key_codec o.key_codec cs;
            value_codec = last_value_codec o.value_codec cs;
          })
          (append_assoc o.tree_settings (with_block_size n ∷ []) (tree_settings_of cs))

module _ {ℓ κ μ ν ξ} {K : Type ℓ} {V : Type κ} {E : Type μ} {F : Type ν} {S : Type ξ}
    (fl : Floats F) (key_gob : Gob E K) (value_gob : Gob E V) (f : Flusher E S) (storage : S) where
  -- a disk tree around a tree, or the error of the tree's constructor
  abbrev pub around :
      List (DiskChoice K V E F) → Made (BeTree K V × Ord K) → Made (DiskTree K V E S × Ord K)
  around cs (failed e) = failed e
  around cs (made t) = made (
    record {
      tree = t.0;
      flusher = f;
      storage = storage;
      key_codec = last_key_codec (gob_codec key_gob) cs;
      value_codec = last_value_codec (gob_codec value_gob) cs;
    },
    t.1,
  )

  -- the body of the constructor, after the options are resolved
  abbrev wrapped : DiskOptions K V E F → Made (BeTree K V × Ord K) → Made (DiskTree K V E S × Ord K)
  wrapped options r = elim r [
    | failed e ↦ failed e
    | made t ↦ made (
      record {
        tree = t.0;
        flusher = f;
        storage = storage;
        key_codec = options.key_codec;
        value_codec = options.value_codec;
      },
      t.1,
    )
  ]

  wrapped-around :
      (cs : List (DiskChoice K V E F)) (settings : List (Setting F)) (r : Made (BeTree K V × Ord K))
      → wrapped
          (record {
            tree_settings = settings;
            key_codec = last_key_codec (gob_codec key_gob) cs;
            value_codec = last_value_codec (gob_codec value_gob) cs;
          })
          r
        ≡ around cs r
  wrapped-around cs settings (failed e) = refl
  wrapped-around cs settings (made t) = refl

  -- `NewDiskWithCompare` with options of the package fails with the error with which the tree's
  -- constructor fails on the tree settings among them, taken in order; otherwise it wraps that tree,
  -- with the last codec chosen for keys and for values, or gob's.
  pub new_disk_with_compare_lem :
      (compare : Option (Ord K)) (cs : List (DiskChoice K V E F))
      → new_disk_with_compare fl key_gob value_gob compare f storage (settings_of cs)
        ≡ around cs (new_with_compare fl compare (tree_settings_of cs))
  unfolding new_disk_with_compare resolve_disk_options
  new_disk_with_compare_lem compare cs =
      ap (λ o. wrapped o (new_with_compare fl compare o.tree_settings))
        (apply_disk_settings_lem cs (record {
          tree_settings = [];
          key_codec = gob_codec key_gob;
          value_codec = gob_codec value_gob;
        }))
      ∙ wrapped-around cs (tree_settings_of cs) (new_with_compare fl compare (tree_settings_of cs))
