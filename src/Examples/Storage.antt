-- ===== src/Examples/Storage.antt =====
-- disktree.go, codec.go and the codec of examples/disktree-varint/main.go on concrete backends.
use Prim.Native.Nat.{◌%◌, ◌^◌, ◌*◌}
use fractaltree.Prelude.{
  ℕ, zero, suc, ◌+◌, ◌-◌, ◌/◌, ◌≤◌, ◌<◌, ◌≡◌, refl, ap, List, [], ◌∷◌, ◌++◌, arith, if◌then◌else◌,
  ltb, length, Bool-cases, inl, inr, false, true, take, some, none, is_some,
}
use fractaltree.Prelude.Int.{pos}
use fractaltree.Order.{nat_ord}
use fractaltree.Codec.{Bytes, Codec, ok, error}
use fractaltree.Tree.{get}
use fractaltree.Tree.Laws.{IsValid}
use fractaltree.Client.{put_op}
use fractaltree.Client.Calls.{
  Call, point_call, delete_range_call, range_call, all_call, cursor_call, run_calls, AllPromised,
}
use fractaltree.Disk.{Flusher, DiskTree, close_disk, close_failed, disk_get}
use fractaltree.Disk.{new_disk_with_compare}
use fractaltree.Disk.Make.{
  DiskChoice, key_choice, epsilon_choice, block_choice, settings_of, tree_settings_of, around,
  new_disk_with_compare_lem,
}
use fractaltree.Options.{new_with_compare}
use fractaltree.Codec.{Gob}
use fractaltree.Prelude.{◌==◌}
use fractaltree.Examples.Settings.{percent}
use fractaltree.Disk.Laws.{run_disk_calls, run_disk_calls-AllPromised, close_disk_lem}
use fractaltree.Examples.Data.{nat_zero, grown, grown-IsValid}
use fractaltree.Programs.Varint.{Varint, encode_string, decode_string, too_short}
use fractaltree.Programs.Varint.Laws.{Reads, decode_string-encode_string, decode_string-take}

-- groups of seven bits, the least first, all but the last marked by the eighth bit
abbrev put_groups : ℕ → ℕ → Bytes
put_groups zero x = x ∷ []
put_groups (suc f) x =
    let rest = put_groups f (x / 128) in if ltb x 128 then x ∷ [] else (x % 128 + 128) ∷ rest

abbrev read_groups : Bytes → ℕ × ℕ
read_groups [] = (0, 0)
read_groups (b ∷ bs) =
    let (x, n) = read_groups bs in if ltb b 128 then (b, 1) else (b - 128 + 128 * x, suc n)

abbrev groups : Varint
groups = record {
  put_uvarint = put_groups 9;
  uvarint = λ bytes. let (x, n) = read_groups bytes in (x, pos n);
}

read_groups-put_groups :
    (f x : ℕ) (rest : Bytes)
    → x < 128 ^ suc f
    → read_groups (put_groups f x ++ rest) ≡ (x, length (put_groups f x))
read_groups-put_groups zero x rest h = ground arith
read_groups-put_groups (suc f) x rest h =
    let r = read_groups-put_groups f (x / 128) rest (omega arith) in
    elim (Bool-cases (ltb x 128)) [
      | inl e ↦ rw e (rw e refl)
      | inr e ↦
          let marked : ltb (x % 128 + 128) 128 ≡ false = ground arith in
          rw e (rw (marked, r) (ap (λ y. (y, suc (length (put_groups f (x / 128))))) (omega arith)))
    ]

put_groups_size : (f x : ℕ) → (0 < length (put_groups f x)) × (length (put_groups f x) ≤ suc f)
put_groups_size zero x = ground arith
put_groups_size (suc f) x = ground (arith, put_groups_size f (x / 128))

groups-Reads : Reads groups
groups-Reads = record {
  size = λ x h. (put_groups_size 9 x).1;
  some_byte = λ x h. (put_groups_size 9 x).0;
  read = λ x rest h.
      ap (λ (r : ℕ × ℕ). (r.0, pos r.1)) (read_groups-put_groups 9 x rest (omega arith));
}

abbrev text : Bytes
text = 104 ∷ 101 ∷ 108 ∷ 108 ∷ 111 ∷ []

decode_string-encode_string_example :
    (bytes : Bytes) × (encode_string groups text ≡ ok bytes)
    × (decode_string groups (bytes ++ 7 ∷ []) ≡ ok text)
decode_string-encode_string_example =
    decode_string-encode_string groups text (7 ∷ []) groups-Reads (omega arith)

decode_string-take_example :
    (bytes : Bytes) × (encode_string groups text ≡ ok bytes)
    × (decode_string groups (take (length bytes - (length text - 3)) bytes)
        ≡ error (too_short (length text) (pos 3)))
decode_string-take_example =
    decode_string-take groups text 3 groups-Reads (omega arith) (omega arith)

-- a backend that counts its calls and fails to close
abbrev counting : Flusher ℕ ℕ
counting = record {
  write_node = λ id bytes s. (s + 1, none);
  read_node = λ id s. (s, error id);
  sync = λ s. (s + 1, none);
  close_flusher = λ s. (s + 2, some 7);
}

abbrev no_codec : Codec ℕ ℕ
no_codec = record { encode = λ v. ok (v ∷ []); decode = λ bytes. error 1 }

abbrev disk : DiskTree ℕ ℕ ℕ ℕ
disk = record {
  tree = grown;
  flusher = counting;
  storage = 0;
  key_codec = no_codec;
  value_codec = no_codec;
}

abbrev disk_calls : List (Call ℕ ℕ)
disk_calls =
    point_call (put_op 7 70)
    ∷ delete_range_call 5 8
    ∷ range_call 3 9 (λ p. false)
    ∷ all_call (λ p. p.0 == 3)
    ∷ cursor_call
    ∷ []

run_disk_calls-AllPromised_example :
    ((run_disk_calls disk_calls disk).0.tree ≡ (run_calls disk_calls grown).0)
    × IsValid (run_disk_calls disk_calls disk).0.tree
    × AllPromised disk_calls
        (disk_get disk)
        (disk_get (run_disk_calls disk_calls disk).0)
        (run_disk_calls disk_calls disk).1
    × ((run_disk_calls disk_calls disk).0.storage ≡ 0)
run_disk_calls-AllPromised_example = run_disk_calls-AllPromised disk_calls disk grown-IsValid

close_disk_lem_example :
    ((close_disk disk).1 ≡ some (close_failed 7))
    × ((close_disk disk).0.storage ≡ 3)
    × ((close_disk disk).0.tree.closed
        ≡ (if is_some (close_disk disk).1 then disk.tree.closed else true))
    × ((k : ℕ) → get (close_disk disk).0.tree k ≡ get disk.tree k)
close_disk_lem_example = close_disk_lem disk

abbrev choices : List (DiskChoice ℕ ℕ ℕ ℕ)
choices = epsilon_choice 80 ∷ key_choice no_codec ∷ block_choice (pos 16) ∷ []

-- a serializer that fails on zero
abbrev some_gob : Gob ℕ ℕ
some_gob = record {
  write = λ v. if v == 0 then ([], some 0) else (v ∷ [], none);
  read = λ bytes. elim bytes [ [] ↦ (0, some 1) | b ∷ bs ↦ (b, none) ];
}

new_disk_with_compare_lem_example :
    new_disk_with_compare percent some_gob some_gob (some nat_ord) counting 0 (settings_of choices)
    ≡ around percent some_gob some_gob counting 0 choices
        (new_with_compare percent (some nat_ord) (tree_settings_of choices))
new_disk_with_compare_lem_example =
    new_disk_with_compare_lem percent some_gob some_gob counting 0 (some nat_ord) choices
