-- ===== src/Lib.antt =====
-- callstack-count counts call stacks. src/main.c reads records of (id, stack) and keeps one tree
-- per id; a backend adds each stack to the tree of its id. Three backends are complete: perf's
-- radix tree of call chains (src/lib/linux), an adaptive radix tree (src/lib/art) and a hash table
-- (src/lib/hashtable).
--
-- - Prelude: shared names, the Boolean tests and lists over the native numbers, and `Run`, the
--   result of code that may stop by an assertion, by `die` or at a pointer to no live object.
-- - RbTree: the trees of src/include/linux/rbtree.h. The library (src/lib/linux/rbtree.c, a copy of
--   the kernel's) is the record `RbLibrary`: rebalancing, which keeps the order of the nodes.
--   RbTree/Search: the search loops of src/main.c with rb_link_node.
-- - Callchain: src/include/callchain.h and src/lib/linux/callchain.c. Cursor holds the callchain
--   cursor, a list of cached nodes with positions for its pointers; Match is match_chain; Tree the
--   nodes; Append is callchain_append with all that it calls. The children of a node are a tree of
--   nodes, so a step of the loop in append_chain_children is a step of a structural recursion, and
--   what it changes in a child is put back on the way up. Weight says what a tree counts; Append/
--   has the lemmas on matching (Values), splitting (Split), the end of the walk (Ending, Finish),
--   the walk (Growth), the root (Root), the cursor that is written (Holding) and read (Reading),
--   and calls in a row (Repeat). Sort is the output trees of rb_insert_callchain and the sort_chain
--   functions, with their order (Order), the flat and graph modes (Flat, Graph) and
--   callchain_register_param (Register); Merge is callchain_merge, and Compare is
--   callchain_cnode_matched.
-- - Program: src/main.c. A `struct callstack_tree *` is an index into the trees allocated so far.
--   Options is the choice of the backend, Maps get_map, Dispatch the order of the ids, Trees what
--   get_tree finds, Refine the main loop against a map from ids.
-- - Linux: src/lib/linux/callstack.c over Callchain and get_map; Linux/Counts relates stacks
--   inserted to chains counted, Linux/Main the records of the main loop to the counts of all trees,
--   Linux/Order another order of the records, and Linux/Bounds is about the size of the cursor.
-- - Hashtable: src/lib/hashtable/hashtable.c. A key is the address of a stream, and `streams` gives
--   the streams that live; Keys is about the comparison of keys, First and Lookup about the
--   internal buckets, Slow about the indirect ones and the expansion, Collide about the assertion
--   there, Expanded about the table behind it. Hashtable/Backend is src/lib/hashtable/callstack.c,
--   whose stream is a local variable. The hash function (jenkins.c, by Bob Jenkins) is a parameter.
-- - Art: src/lib/art/art.h and art.c. Children, Grow and Prefix are about one node; Insert is
--   insert and do_leaf over a heap, in which a pointer is an index, and Insert/Search is search;
--   Insert/Counts and Insert/Chains are about the loops, Insert/Fork, Insert/Two and Insert/Nested
--   about a second stream. Stacks is the tree as a table of counted stacks: Paths, Matching and
--   Searching are about the way from the root, Keeping, Hit, Extend, First and Forking about what
--   each case of insert changes, Rounds and Inserting about the loop, Counting, Few and Entries
--   about the counts, MainLoop about the main loop, Overrun about a comparison that reads too far.
--   Backend is src/lib/art/ops.c with the bytes of a stack, and Art/Main runs the main loop with
--   it.
-- - Examples: runs of the theorems at concrete data.
--
-- Machine integers wrap as in the source, written out, but for some that are natural numbers
-- without a bound: `depth`, `match` and `i`, the ints of art.c, which would differ only for a
-- stream of 2^31 bytes or more, and `nr` and `pos`, the u64 of a cursor. A map_symbol is its field
-- `map`, so that two map_symbols of one map are not told apart. The words of a stack stand in
-- memory low byte first. Allocation is taken to succeed. The loop of fill_node has the frames that
-- are left as fuel, the copy of a cursor the length of the source, the loop over a stack the 256
-- entries of its array, the chain of do_leaf the length of the common prefix, of which each round
-- takes 128 bytes, and insert and search one round more than the stream has bytes.
--
-- The product in floating point from which sort_chain_graph_rel computes its limit is a parameter,
-- `ceil_percent`. The code writes ceil(x), which src/lib/linux/callchain.c defines as x, so that
-- the product is truncated.
--
-- Not modelled: printing, the statistics, freeing memory, the thread-local storage of the cursor,
-- the stub backend src/lib/hot and the test programs. Nothing in the program calls the sorting,
-- merging and comparison of call chains; they are modelled as the library offers them.
pub mod Prelude
pub mod RbTree
pub mod Callchain
pub mod Program
pub mod Linux
pub mod Hashtable
pub mod Art
pub mod Examples
