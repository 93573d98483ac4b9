-- ===== src/Message.antt =====
-- message.go: the buffered operations.
pub mod Replay
use fractaltree.Prelude.{Bool, Option}

-- `UpsertFn`: called with `(&v, true)`, here `some v`, or with `(nil, false)`, here `none`.
abbrev pub UpsertFn {ℓ} : Type ℓ → Type ℓ
UpsertFn V = Option V → V

-- `Message` with its `Kind`: a constructor carries the fields that its kind uses; the others hold
-- zero values. `counted` of a put is its last field.
pub data Message {ℓ κ} (K : Type ℓ) (V : Type κ) : Type (ℓ ⊔ κ) where
  put : K → V → Bool → Message K V
  delete : K → Message K V
  delete_range : K → K → Message K V
  upsert : K → UpsertFn V → Message K V

module _ {ℓ κ} {K : Type ℓ} {V : Type κ} where
  -- the field `Key`
  abbrev pub key_of : Message K V → K
  key_of (put k v c) = k
  key_of (delete k) = k
  key_of (delete_range k e) = k
  key_of (upsert k f) = k

-- Go's zero value of a type.
pub record Zero {ℓ} (V : Type ℓ) : Type ℓ where
  pub zero_value : V

-- the field `Value`
abbrev pub value_of {ℓ κ} : {K : Type ℓ} {V : Type κ} ⦃z : Zero V⦄ → Message K V → V
value_of (put k v c) = v
value_of ⦃z⦄ _ = z.zero_value
