-- ===== src/Programs/Varint.antt =====
-- examples/disktree-varint/main.go: VarintStringCodec. PutUvarint and Uvarint of encoding/binary are an
-- argument. A Go string is its list of bytes, whose length is a natural number without the range of int.
pub mod Laws
use Prim.Native.Nat.{◌%◌, ◌^◌}
use fractaltree.Prelude.{
  ℕ, zero, suc, ◌+◌, ◌-◌, Bool, not, ◌||◌, List, [], ◌∷◌, ◌++◌, if◌then◌else◌, ltb, leb, length,
  take, drop,
}
use fractaltree.Prelude.Int.{ℤ, pos, ◌-ℤ◌, ltb_ℤ, pos_part}
use fractaltree.Codec.{Bytes, Result, ok, error, Codec}

-- `put_uvarint x` is what PutUvarint writes at the front of a buffer, as many bytes as it returns.
pub record Varint : Type 0 where
  pub put_uvarint : ℕ → Bytes
  pub uvarint : Bytes → ℕ × ℤ

pub data VarintError : Type 0 where
  invalid_varint : VarintError
  too_short : ℕ → ℤ → VarintError

-- `make([]byte, n)`
abbrev pub zeros : ℕ → Bytes
zeros zero = []
zeros (suc n) = 0 ∷ zeros n

-- `copy(buf, b)`, which stops where either ends
abbrev pub overwrite : Bytes → Bytes → Bytes
overwrite buf [] = buf
overwrite [] (b ∷ bs) = []
overwrite (a ∷ buf) (b ∷ bs) = b ∷ overwrite buf bs

-- `copy(buf[n:], b)`
abbrev pub overwrite_from : ℕ → Bytes → Bytes → Bytes
overwrite_from n buf b = take n buf ++ overwrite (drop n buf) b

module _ (vi : Varint) where
  unfoldable pub encode_string : Bytes → Result VarintError Bytes
  encode_string s =
      let header = vi.put_uvarint (length s % 2 ^ 64) in
      let n = length header in
      let buf = overwrite (zeros (10 + length s)) header in
      ok (take (n + length s) (overwrite_from n buf s))

  unfoldable pub decode_string : Bytes → Result VarintError Bytes
  decode_string bytes =
      let (size, n) = vi.uvarint bytes in
      if not (ltb_ℤ (pos 0) n)
      then error invalid_varint
      else (let remaining = pos (length bytes) -ℤ n in
          if ltb_ℤ remaining (pos 0) || ltb (pos_part remaining) size
          then error (too_short size remaining)
          else ok (take size (drop (pos_part n) bytes)))

  abbrev pub varint_string_codec : Codec VarintError Bytes
  varint_string_codec = record { encode = encode_string; decode = decode_string }
