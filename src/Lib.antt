-- ===== src/Lib.antt =====
-- fractaltree: an in-memory B-epsilon-tree in Go. A write below an internal root is a message in the
-- root's buffer; a full buffer is parted by child and its largest part moves one level down, until
-- the messages reach a leaf. Reads combine the messages on the path of a key with the leaf's entry.
--
-- Parts, files and the code they stand for:
--   Message, Message/Replay: message.go. `effect`, `step` and `replay` say what messages mean for a
--     key; they are the specification, written without the code's shortcuts.
--   Search: the binary search loop of node.go, cursor.go and of slices.BinarySearchFunc.
--   Node, Node/Entries, Node/LeafSearch, Node/Buffer, Node/Slice: node.go (node, appendToBuffer,
--     bufferMessagesForKey, bufferSlice, bufferSliceScan, findChildIndex, leafSearch, leafInsert,
--     leafDelete). Node/Entries has the sorted map that a leaf is.
--   Ordered, Ordered/Route, Ordered/Congr: the search-tree invariant `IsOrdered`, and `eval`, the
--     value a tree holds at a key when every pending message is replayed.
--   Read, Read/Get: tree.go (existsInLeaf, getFromNode, getWithUpserts, applyUpsertChain).
--   Merge, Merge/*: flush.go (appendToLeaf, mergeLeafPuts, mergeLeafWithDeletes).
--   Apply, Apply/*: flush.go (applyToLeaf, applyToLeafSmall, resolveMessages, resolveKeyGroup).
--   Split, Split/*: flush.go (splitChild, splitLeafChild, splitInternalChild, splitRoot).
--   Flush, Flush/*: flush.go (flushNode).
--   Tree, Tree/*: tree.go (BETree, NewWithCompare, Put, putLocked, Get, Delete, Contains, Len, Clear,
--     Close, Upsert, PutIfAbsent).
--   DeleteRange, DeleteRange/*: tree.go (DeleteRange).
--   Iterator, Iterator/*: iterator.go (materializeAll, materializeRange, materializeDescendRange,
--     collectAll, collectRange, resolveEntries, resolveKeyEntries). Node/Same has the lists that read
--     alike. Sequence, Sequence/Laws: iterator.go (All, Ascend, Descend, Range, DescendRange) and the
--     method Cursor of tree.go.
--   Client, Client/Refines: the point calls of the interface Tree of tree.go as lists of calls.
--     Client/Calls: all of its calls but Len and Close, with what each promises as a relation. Len
--     answers from the counters, which Count relates to the tree; Close marks the tree, and no other
--     method reads the mark.
--     Client/Keep: from the writes on a root to the calls, for any invariant of root and counters.
--     Client/Made: these calls on a tree that NewWithCompare of tree.go has made.
--   Count, Count/*: the fields size and pendingDeletes of BETree through tree.go and flush.go.
--     `IsCounted` says what the two count, `AreHit` that pending deletes find a value; `Tracks` relates
--     the counters before and after a step.
--   Shape, Shape/*: the depth of the leaves and the number of children under flush.go and tree.go.
--   Cursor, Cursor/*: cursor.go. Upsert, Upsert/Laws: upsert.go.
--   Options, Options/Laws: options.go, errors.go and the constructor of tree.go. The operations of
--     float64 and math.Pow are the parameter `Floats`, of which nothing is assumed.
--   Codec, Codec/Laws: codec.go. The operations of encoding/gob are the parameter `Gob`.
--   Disk, Disk/*: disktree.go. The backend is a record `Flusher` of operations on a state.
--   Programs/Varint, Programs/Memory: examples/disktree-varint/main.go. PutUvarint and Uvarint are the
--     parameter `Varint`, and `Reads` is what encoding/binary documents of them.
--   Programs/Binary: the codec of examples/disktree-binary/main.go. Read and Write of encoding/binary
--     are the parameter `LittleEndian`.
--   Programs/MergeJoin: examples/mergejoin/main.go. Programs/Comparators: the comparators of
--     examples/comparator, eviction, leaderboard and ratelimiter. Programs/PrefixScan:
--     examples/prefixscan/main.go. Programs/Top: the loops of leaderboard and timeseries that stop
--     at a count. Programs/Concurrent: the goroutines of examples/concurrent/main.go; the schedule, which
--     names the goroutine whose call is next, is an argument. Programs/Import: the loops of
--     examples/bulkimport/main.go. Programs/Eviction: the eviction and the re-access of
--     examples/eviction/main.go. Programs/Requests: the counts of examples/ratelimiter/main.go.
--   Prelude, Order: shared names and lemmas, and the comparator with its documented contract, a
--     total preorder, whose keys may compare equal and yet differ.
--   Examples: concrete trees, and the laws at these.
--
-- State: `BeTree` has the fields of BETree but for `cmp`, an instance argument, and `mu`. A method
-- holds the mutex from its first line to its return, so it is a function from a state to a state and
-- a result, and concurrent callers make a sequence of calls. A leaf's slices `keys` and `values` are
-- one list of pairs; `flushBuckets`, a buffer reused between flushes and emptied first, is a local
-- value. Copies within a slice (mergeLeafPuts) keep the part not yet read and the part written as two
-- lists. A result `(v, true)` is `some v`, and `(zero, false)` is `none`. An iterator is a function of
-- the caller's `yield`, which changes the caller's state and says whether the loop goes on. The
-- stable sorts of the library are insertion sorts, since a stable sort has one result. A `[]byte` or a
-- string is its list of bytes.
--
-- Bounds: the binary searches run on fuel, the length of the range searched; each round makes the
-- range shorter, and their lemmas show that it is enough. The loops over cursors run on fuel, and
-- one round more than there are pairs is enough. All else is structural recursion: a flush descends
-- the tree. Sizes and indices are natural numbers; `size` and `pendingDeletes` are integers without
-- the 64-bit range. The split returns `none` where Go panics on an index.
--
-- Not modelled: the data and the printing of the functions main of examples/; memory reuse and
-- garbage collection; and a function given to Upsert that changes its argument through the pointer:
-- here it is a pure function.
pub mod Prelude
pub mod Order
pub mod Message
pub mod Search
pub mod Node
pub mod Ordered
pub mod Read
pub mod Merge
pub mod Apply
pub mod Split
pub mod Flush
pub mod Tree
pub mod Client
pub mod Iterator
pub mod DeleteRange
pub mod Cursor
pub mod Sequence
pub mod Count
pub mod Shape
pub mod Codec
pub mod Upsert
pub mod Options
pub mod Disk
pub mod Programs
mod Examples
