-- ===== src/Codec.antt =====
-- codec.go: codecs, and the one over encoding/gob, which is an argument. A `[]byte` is a list of bytes.
pub mod Laws
use fractaltree.Prelude.{ℕ, Option, none, some, List}

abbrev pub Bytes : Type 0
Bytes = List ℕ

-- a result and a nil error, or an error and the zero value
pub data Result {ℓ κ} (E : Type ℓ) (A : Type κ) : Type (ℓ ⊔ κ) where
  error : E → Result E A
  ok : A → Result E A

pub record Codec {ℓ κ} (E : Type ℓ) (T : Type κ) : Type (ℓ ⊔ κ) where
  pub encode : T → Result E Bytes
  pub decode : Bytes → Result E T

-- `gob.NewEncoder(&buf).Encode(v)`: the bytes that are then in the empty buffer, and the error; and
-- `gob.NewDecoder(bytes.NewReader(data)).Decode(&v)`: what is then in `v`, and the error
pub record Gob {ℓ κ} (E : Type ℓ) (T : Type κ) : Type (ℓ ⊔ κ) where
  pub write : T → Bytes × Option E
  pub read : Bytes → T × Option E

module _ {ℓ κ} {E : Type ℓ} {A : Type κ} where
  -- `if err != nil { return ..., err }` and the other return
  abbrev pub unless_error : A × Option E → Result E A
  unless_error (a, none) = ok a
  unless_error (a, some e) = error e

module _ {ℓ κ} {E : Type ℓ} {T : Type κ} where
  -- `GobCodec`
  unfoldable pub gob_codec : Gob E T → Codec E T
  gob_codec gob = record {
    encode = λ v. unless_error (gob.write v);
    decode = λ bytes. unless_error (gob.read bytes);
  }
