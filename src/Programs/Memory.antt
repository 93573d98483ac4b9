-- ===== src/Programs/Memory.antt =====
-- examples/disktree-varint/main.go, and the same text in the two other disktree examples: memFlusher, the
-- backend that keeps the nodes in a Go map.
use fractaltree.Prelude.{ℕ, ◌≡◌, Option, none, some, arith, if◌then◌else◌, ◌==◌}
use fractaltree.Codec.{Bytes, Result, ok, error}
use fractaltree.Disk.{Flusher}

-- `nodes`
abbrev pub Nodes : Type 0
Nodes = ℕ → Option Bytes

-- the error of ReadNode
pub data MemoryError : Type 0 where
  node_not_found : ℕ → MemoryError

abbrev pub write_memory : ℕ → Bytes → Nodes → Nodes × Option MemoryError
write_memory id bytes nodes = ((λ i. if i == id then some bytes else nodes i), none)

abbrev pub found_node : ℕ → Option Bytes → Result MemoryError Bytes
found_node id none = error (node_not_found id)
found_node id (some bytes) = ok bytes

abbrev pub read_memory : ℕ → Nodes → Nodes × Result MemoryError Bytes
read_memory id nodes = (nodes, found_node id (nodes id))

abbrev pub mem_flusher : Flusher MemoryError Nodes
mem_flusher = record {
  write_node = write_memory;
  read_node = read_memory;
  sync = λ nodes. (nodes, none);
  close_flusher = λ nodes. (nodes, none);
}

-- `newMemFlusher`
abbrev pub new_nodes : Nodes
new_nodes i = none

-- A node written is read back, the other nodes are read as before, and no call fails but the read of a
-- node that was not written.
pub read_memory-write_memory :
    (id i : ℕ) (bytes : Bytes) (nodes : Nodes)
    → (read_memory i (write_memory id bytes nodes).0).1
      ≡ (if i == id then ok bytes else (read_memory i nodes).1)
read_memory-write_memory id i bytes nodes = ground arith
