-- ===== src/Lib.antt =====
-- A verification library for the SysML v2 federation adapter and its worked example.
--
-- The program reads a SysML v2 text, resolves it into a model, serves the model as a federated
-- GraphQL subgraph, and joins it to a capacity analysis and to a requirements document.
--
-- Parts, and the files that model them:
--
-- - adapter/syntax, the lexer and the parser. Syntax/Token and Syntax/Position follow token.go
--   (Span, Kind, Token, Error, Position, ErrorAt), Syntax/Lexer and Syntax/Lexer/Scan follow
--   lexer.go (one round of the switch of Lex is `round`, the loop is `lex_loop`), Syntax/Ast
--   follows ast.go, Syntax/Expr follows expr.go, and Syntax/Cursor, Syntax/Docs, Syntax/Parser and
--   the modules below it follow parser.go, with a function for each method. The other modules
--   below these hold proofs.
-- - adapter/projection/store.go and broadcast.go: Broadcast has the one-slot channels of the
--   subscribers, Projection/Store the store with its version and the pointers to the served and the
--   shipped model, into a heap of models, which Reset copies from and install assigns to. A
--   method runs under the store's lock, so a run is a list of `Step`s. The operations of the model
--   package are the record `ModelPackage`, so that the store is proved for any of them.
-- - examples/pipeline/document/tree/tree.go: Document/Forest has the nodes and the walks over them,
--   Document/Tree every operation of the tree, each returning the new tree or its refusal.
-- - examples/pipeline/document/service.go, with the mutations of schema.resolvers.go:
--   Document/Service. `apply` runs a mutation on the tree, counts the version and tells the
--   subscribers; `snapshot` is what a client gets.
-- - adapter/model, which builds a model from a parsed file. Model/Outcome is how a step ends (a result,
--   the refusal that fail panics with, another panic, or no fuel), Model/Nodes the types of model.go
--   and of the builder, Model/Declare, Model/Parts, Model/Link and Model/Build follow build.go,
--   Model/Resolve follows resolve.go, Model/Eval eval.go, Model/Constraint constraint.go and
--   Model/Patch patch.go. A pointer to a node is its index in the builder's list, and a binding's key
--   is the owner and the name of its slot.
-- - examples/pipeline/capacity/flow: Capacity/Verdict follows verdict.go, with Rollup as a parameter.
--   Capacity/Flow follows the graph of flow.go (newGraph, add, bfs, dfs, maxFlow, reachable) and
--   Capacity/Rollup its Rollup, with a function for each loop and each round of one. Capacity/Exact
--   has whole numbers with infinity, added and compared exactly, for what is said of sums.
--
-- In the document tree the pointer to a node that locate finds is the node's place in document order, and
-- an assignment there changes the first node with its id, which is that node. Text is a list of bytes. The
-- loops of the lexer and the parser run on fuel taken from the length of what they read, which is
-- enough since a round reads a byte or a token; the loop of newID runs on one round more than there
-- are nodes, since a round that goes on has met another node's id. The loop of defChain runs on two
-- rounds more than there are part definitions, since a round that goes on has met another one, and
-- eval on one call more than there are slots, since every call inside another has another key busy.
-- The loops of bfs and reachable run on a round for each vertex, since a vertex enters the queue once,
-- and dfs on a call for each vertex, since the level rises with every call. maxFlow runs on fuel that is
-- given to it, since nothing bounds it over all values of float64; over whole numbers, more than the
-- children's values together is enough, since every path lowers what is left of them.
--
-- Parameters: float64 values with their arithmetic, strconv.ParseFloat and FormatFloat, the quoting
-- verb of fmt and the decoding of JSON. Not modelled: GraphQL resolvers and generated code, HTTP wiring
-- and the command, and the test tooling.
mod Base
pub mod Syntax
pub mod Document
mod Broadcast
pub mod Projection
pub mod Capacity
pub mod Model
