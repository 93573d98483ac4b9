-- ===== src/Programs/Varint/Laws.antt =====
-- examples/disktree-varint/main.go: what VarintStringCodec encodes it decodes, and it refuses what is
-- cut short.
use Prim.Native.Nat.{◌%◌, ◌^◌}
use fractaltree.Prelude.{
  ℕ, zero, suc, ◌+◌, ◌-◌, ◌≤◌, ◌<◌, ◌≡◌, refl, ap, sym, ◌∙◌, List, [], ◌∷◌, ◌++◌, arith,
  if◌then◌else◌, leb, length, length-append, take-append, take, drop, append_assoc, append-nil,
}
use fractaltree.Prelude.Int.{pos, ◌-ℤ◌}
use fractaltree.Codec.{Bytes, ok, error}
use fractaltree.Programs.Varint.{
  Varint, too_short, zeros, overwrite, overwrite_from, encode_string, decode_string,
}

suc_out : (a b : ℕ) → suc a + b ≡ suc (a + b)
suc_out a b = omega arith

module _ {ℓ} {A : Type ℓ} where
  drop-append : (xs ys : List A) → drop (length xs) (xs ++ ys) ≡ ys
  drop-append [] ys = refl
  drop-append (x ∷ xs) ys = drop-append xs ys

  take-append-more : (xs ys : List A) (n : ℕ) → take (length xs + n) (xs ++ ys) ≡ xs ++ take n ys
  take-append-more [] ys n = ap (λ m. take m ys) (omega arith)
  take-append-more (x ∷ xs) ys n =
      ap (λ m. take m (x ∷ xs ++ ys)) (suc_out (length xs) n)
      ∙ ap (λ r. x ∷ r) (take-append-more xs ys n)

length-zeros : (n : ℕ) → length (zeros n) ≡ n
length-zeros zero = refl
length-zeros (suc n) = ap suc (length-zeros n)

length-overwrite : (buf b : Bytes) → length (overwrite buf b) ≡ length buf
length-overwrite [] [] = refl
length-overwrite [] (y ∷ b) = refl
length-overwrite (x ∷ buf) [] = refl
length-overwrite (x ∷ buf) (y ∷ b) = ap suc (length-overwrite buf b)

-- what is written into a buffer that is long enough, and the rest of the buffer
overwrite_lem : (buf b : Bytes) → length b ≤ length buf → overwrite buf b ≡ b ++ drop (length b) buf
overwrite_lem buf [] h = refl
overwrite_lem [] (y ∷ b) h = absurd (omega arith)
overwrite_lem (x ∷ buf) (y ∷ b) h = ap (λ r. y ∷ r) (overwrite_lem buf b (omega arith))

length-drop : (n : ℕ) (b : Bytes) → length (drop n b) ≡ length b - n
length-drop zero b = omega arith
length-drop (suc n) [] = omega arith
length-drop (suc n) (x ∷ b) = length-drop n b ∙ omega arith

-- a buffer with room for a header and a text, after both are copied into it
copied :
    (k : ℕ) (header s : Bytes)
    → length header ≤ k
    → take
        (length header + length s)
        (overwrite_from (length header) (overwrite (zeros (k + length s)) header) s)
      ≡ header ++ s
copied k header s h =
    let buf = zeros (k + length s) in
    let rest = drop (length header) buf in
    let room : length s ≤ length rest =
      omega (arith, length-drop (length header) buf, length-zeros (k + length s)) in
    rw
      (
        overwrite_lem buf header (omega (arith, length-zeros (k + length s))),
        take-append header rest,
        drop-append header rest,
        overwrite_lem rest s room,
        take-append-more header (s ++ drop (length s) rest) (length s),
        take-append s (drop (length s) rest),
      )
      refl

less_header : (a b : ℕ) → pos (a + b) -ℤ pos a ≡ pos b
unfolding ◌-ℤ◌
less_header a b = ground arith

module _ (vi : Varint) where
  -- what encoding/binary documents: a number of 64 bits takes at most 10 bytes, and is read back from
  -- the front of a buffer together with the count of its bytes, which is positive
  pub record Reads : Type 0 where
    pub size : (x : ℕ) → x < 2 ^ 64 → length (vi.put_uvarint x) ≤ 10
    pub some_byte : (x : ℕ) → x < 2 ^ 64 → 0 < length (vi.put_uvarint x)
    pub read :
        (x : ℕ) (rest : Bytes)
        → x < 2 ^ 64
        → vi.uvarint (vi.put_uvarint x ++ rest) ≡ (x, pos (length (vi.put_uvarint x)))

  encode_string_lem :
      (s : Bytes)
      → Reads
      → length s < 2 ^ 64
      → encode_string vi s ≡ ok (vi.put_uvarint (length s) ++ s)
  unfolding encode_string
  encode_string_lem s r h =
      let fits_64 : length s % 2 ^ 64 ≡ length s = omega arith in
      rw fits_64 (ap ok (copied 10 (vi.put_uvarint (length s)) s (r.size (length s) h)))

  decode_string_lem :
      (x : ℕ) (rest : Bytes)
      → Reads
      → x < 2 ^ 64
      → decode_string vi (vi.put_uvarint x ++ rest) ≡ (
          if leb x (length rest) then ok (take x rest) else error (too_short x (pos (length rest))))
  unfolding decode_string
  decode_string_lem x rest r h =
      let header = vi.put_uvarint x in
      let some_byte = r.some_byte x h in
      rw
        (
          r.read x rest h,
          length-append header rest,
          less_header (length header) (length rest),
          drop-append header rest,
        )
        (ground (arith))

  length-take : (n : ℕ) (s : Bytes) → n ≤ length s → length (take n s) ≡ n
  length-take zero s h = refl
  length-take (suc n) [] h = absurd (omega arith)
  length-take (suc n) (x ∷ s) h = ap suc (length-take n s (omega arith))

  take-length : (s : Bytes) → take (length s) s ≡ s
  take-length s = ap (λ t. take (length s) t) (sym (append-nil s)) ∙ take-append s []

  -- If Uvarint reads back what PutUvarint writes, then a string of less than 2 ^ 64 bytes is encoded
  -- without an error, and decoded to itself, whatever bytes follow.
  pub decode_string-encode_string :
      (s rest : Bytes)
      → Reads
      → length s < 2 ^ 64
      → (bytes : Bytes) × (encode_string vi s ≡ ok bytes)
        × (decode_string vi (bytes ++ rest) ≡ ok s)
  decode_string-encode_string s rest r h = (
    vi.put_uvarint (length s) ++ s,
    encode_string_lem s r h,
    ap (decode_string vi) (append_assoc (vi.put_uvarint (length s)) s rest)
        ∙ decode_string_lem (length s) (s ++ rest) r h
        ∙ rw (take-append s rest) (ground (arith, length-append s rest)),
  )

  -- Under the same condition an encoding that is cut within the string's bytes is refused, with the
  -- length wanted and the number of bytes that are left.
  pub decode_string-take :
      (s : Bytes) (n : ℕ)
      → Reads
      → length s < 2 ^ 64
      → n < length s
      → (bytes : Bytes) × (encode_string vi s ≡ ok bytes)
        × (decode_string vi (take (length bytes - (length s - n)) bytes)
            ≡ error (too_short (length s) (pos n)))
  decode_string-take s n r h l =
      let header = vi.put_uvarint (length s) in
      let cut : length (header ++ s) - (length s - n) ≡ length header + n =
        omega (arith, length-append header s) in
      (
        header ++ s,
        encode_string_lem s r h,
        ap (λ m. decode_string vi (take m (header ++ s))) cut
            ∙ ap (decode_string vi) (take-append-more header s n)
            ∙ decode_string_lem (length s) (take n s) r h
            ∙ rw (length-take n s (omega arith)) (ground arith),
      )
