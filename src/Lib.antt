-- ===== src/Lib.antt =====
-- pocket-rust: a compiler from a subset of Rust to WebAssembly.
--
-- A source file is lexed, parsed and expanded, type checked (typeck), borrow checked on a control
-- flow graph (borrowck), made monomorphic (mono), laid out (layout) and turned into a WebAssembly
-- module (codegen), which is at last written as bytes (wasm). This library models parts of that
-- chain and proves what they promise.
--
-- Prelude: what the parts share: Boolean tests, lists under native numbers, texts, results and
--   the shapes of loops, masks as arithmetic.
--
-- Wasm: src/wasm.rs.
--   Types has the structs and enums. A `String` is the list of its UTF-8 bytes, a `Vec<u8>` a list
--   of numbers, a `u32` a number, and an `i32` or `i64` an integer with a sign.
--   Leb has `write_uleb128`, `write_sleb128` and `write_sleb128_64`. Their loops run on fuel, five
--   rounds for 32 bits and ten for 64, since a round takes seven bits.
--   Instr has `encode_instruction` and `encode_block_type`, Sections every section encoder with
--   `encode_locals` in Sections/Locals, and Encode `Module::new`, `Module::encode` and
--   `Module::intern_table_slot`. `out: &mut Vec<u8>` is passed in and returned, a loop over an
--   index is a pass over the list, and `len() as u32` is the remainder by 2 ^ 32.
--   Reader, Instr/Decode and Format are no part of the program: they read the binary format as the
--   WebAssembly specification describes it.
--   Examples has test runs, and the theorems at concrete inputs.
--
-- Span: src/span.rs, positions and the error value.
--
-- Lexer: src/lexer.rs.
--   Token has the tokens, Words the words and signs, a row for each branch, Bytes the tests of bytes and the
--   decoding of UTF-8, Cursor the state of the loop with the runs of bytes, Literal string and char
--   literals, Tokenize the loop. The source is the list of its bytes, and the bytes from `byte_pos` on are
--   what is left of it; the text of a token is a list of bytes too. `line`, `col` and the value of an
--   integer literal wrap, where a build with overflow checks stops; the depth of nested comments does
--   not wrap. The loop has as many rounds as the source has bytes, since each round takes one at least.
--   Moves, Takes and Rounds are about the cursor, Order about the spans. Spelling is no part of the program:
--   it says how tokens are spelled. RoundTrip is about reading that back, a module per kind of token.
--
-- Typeck: src/typeck.
--   Types has the data type of types of src/typeck/types.rs, which the graph's declarations name, and
--   Types/Equal its equality; rtype_vec_eq and dyn_bounds_eq are written out where that calls them.
--   Lifetimes/Equal is about the equality and the numbering of lifetimes.
--   Lifetimes is src/typeck/lifetimes.rs, with the checks in Lifetimes/Declared and elision in
--   Lifetimes/Elision. `next_id: &mut u32` is passed in and returned, and wraps at 2 ^ 32, where a
--   build with overflow checks stops. Lifetimes/Slots lists the lifetimes of a type in the order in
--   which the walks visit them; like the walks, it leaves out the types in the
--   bounds of a trait object. `find_elision_source` has `none` where the code panics.
--
-- Borrowck: src/borrowck.
--   Cfg has the places, statements and blocks of src/borrowck/cfg.rs; Cfg/Places is about places.
--   Graph has the region graph of src/borrowck/cfg.rs, Regions the functions of
--   src/borrowck/regions.rs. A region id is a number; the overflow of `max_region(graph) + 1`, which
--   needs a region id of 2 ^ 32 - 1, is not modelled. The matrix is a list of rows. Its loops over
--   an index are `for_range`, with as many rounds as the index has values; the two loops of `solve`
--   return early and are `check_range`.
--   Regions/Reach says what the solver is to decide: the outlives relation that a set of constraints
--   implies. Matrix, Closure and Decides are about `closure_over`, Solve/Fixed about the regions that
--   the caller picks, Solve/Blame about the constraint to blame, Solve/Verdict about `solve`.
--   Examples has test runs, and the theorems at concrete inputs.
--   Liveness is src/borrowck/liveness.rs. A `LiveSet` is a list; `binary_search` is the search that the
--   standard library documents for a sorted list. The worklist is a
--   stack with the last element of the source's vector first. `analyze` runs on fuel: `enough` rounds
--   are one for each block, and one for each edge for each local that the set of a block can gain. A
--   block id out of range, where the program stops, reads as an empty block that ends the function.
--   Liveness/Flow says when a local is live; Sets, Uses, Preds, Queue, Growth, Rounds, Bound and Ends are about the sets,
--   the transfer functions, the predecessors, the worklist, its invariant and its end.
--   Moves is src/borrowck/moves.rs: Moves the move set, Moves/Transfer the effects of statements with their
--   errors, Moves/Snapshot `compute_moved_locals` and the effects on the state alone. `is_drop`, which asks
--   the trait table, is a parameter. Moves/Worklist has the rounds of `analyze` as a step relation, since it
--   is not shown that they come to an end: the sets neither only grow nor only shrink. Worklist/States, Queue,
--   Settled and Rounds are about a block's effects, the requeuing, the equations and a round.
--   Borrows is src/borrowck/borrows.rs: Borrows the loan sets and the checks of accesses, Borrows/LiveAfter
--   the locals that are live after each statement, Borrows/Transfer the effects of statements and blocks,
--   Borrows/Worklist the rounds of `analyze`. The rounds are a step relation, since it is not shown that they
--   come to an end: a union depends on the order of its arguments, so the sets need not grow. Borrows/Reports
--   says what an access is, when it conflicts with a loan and what the error about the two is; Borrows/Held
--   says where a loan is held, and Borrows/Grounds what an error of the analysis is about. A local
--   without a declaration, where the program stops, counts as one without references.
--
-- Not modelled. The parser, derive expansion, closure lowering, the unsafe checker and the construction of
--   the control flow graph walk or build the syntax tree, whose data types are not here; the type checker
--   beyond lifetimes works on its tables of structs, enums, traits and functions, and on the syntax tree;
--   monomorphisation, layout and code generation work on the tree that the type checker leaves. Of what
--   these hand on, the graph, the types and the module of WebAssembly are modelled, where the passes
--   modelled here begin or end. src/main.rs and src/lib.rs run the passes in order over files.
pub mod Prelude
pub mod Span
pub mod Lexer
pub mod Typeck
pub mod Borrowck
pub mod Wasm
