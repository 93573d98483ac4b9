-- ===== src/Programs/Binary.antt =====
-- examples/disktree-binary/main.go: BinaryCodec. The functions Write and Read of encoding/binary are an
-- argument.
use fractaltree.Prelude.{◌≡◌, Option, none, arith}
use fractaltree.Codec.{Bytes, Codec, unless_error}
use fractaltree.Codec.Laws.{IsFaithful}

-- `binary.Write(&buf, binary.LittleEndian, v)` into an empty buffer: its bytes, and the error; and
-- `binary.Read(bytes.NewReader(data), binary.LittleEndian, &v)`: what is then in `v`, and the error
pub record LittleEndian {ℓ κ} (E : Type ℓ) (T : Type κ) : Type (ℓ ⊔ κ) where
  pub write : T → Bytes × Option E
  pub read : Bytes → T × Option E

module _ {ℓ κ} {E : Type ℓ} {T : Type κ} where
  unfoldable pub binary_codec : LittleEndian E T → Codec E T
  binary_codec io = record {
    encode = λ v. unless_error (io.write v);
    decode = λ bytes. unless_error (io.read bytes);
  }

  -- If a value that is written without an error is read back without one, the codec is faithful.
  pub binary_codec-IsFaithful :
      (io : LittleEndian E T)
      → ((v : T) (bytes : Bytes) → io.write v ≡ (bytes, none) → io.read bytes ≡ (v, none))
      → IsFaithful (binary_codec io)
  unfolding binary_codec
  binary_codec-IsFaithful io h v bytes e = ground (arith, h v bytes)
