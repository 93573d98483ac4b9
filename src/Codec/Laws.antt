-- ===== src/Codec/Laws.antt =====
-- codec.go: what a codec promises, and the promise for the codec over encoding/gob.
use fractaltree.Prelude.{◌≡◌, none, arith}
use fractaltree.Codec.{Bytes, ok, Codec, Gob, gob_codec}

module _ {ℓ κ} {E : Type ℓ} {T : Type κ} where
  -- what is encoded is decoded to the same value
  abbrev pub IsFaithful : Codec E T → Type (ℓ ⊔ κ)
  IsFaithful c = (v : T) (bytes : Bytes) → c.encode v ≡ ok bytes → c.decode bytes ≡ ok v

  -- If a value that gob writes without an error is read back without one, the codec is faithful.
  pub gob_codec-IsFaithful :
      (gob : Gob E T)
      → ((v : T) (bytes : Bytes) → gob.write v ≡ (bytes, none) → gob.read bytes ≡ (v, none))
      → IsFaithful (gob_codec gob)
  unfolding gob_codec
  gob_codec-IsFaithful gob h v bytes e = ground (arith, h v bytes)
