-- ===== src/Syntax/Parser/Ports.antt =====
-- adapter/syntax/parser.go: imports, item definitions, ports, connections and satisfactions.
use sysml_federation.Base.{
  [], ◌∷◌, ◌++◌, Bool, true, false, not, none, some, if◌then◌else◌, ◌==◌, Bytes, bytes, bytes_eq,
  length,
}
use sysml_federation.Syntax.Ast.{
  Import, ItemDef, Direction, direction_zero, direction_in, direction_out, direction_in_out,
  DirectedItem, PortDef, PortUsage, FeatureChain, Connect, Satisfy,
}
use sysml_federation.Syntax.Cursor.{
  P, pure, ◌>>=◌, ◌>>◌, when◌run◌otherwise◌, test◌run◌otherwise◌, ◌or_else◌, next, fail, is, accept,
  expect, name, qualified_name, short_name, end, here, unsupported, once, doc, body,
}
use sysml_federation.Syntax.Expr.{parse_chain}

-- if !p.accept("private") { p.accept("public") }
unfoldable pub visibility : P Bool
visibility = when accept (bytes "private") run pure true otherwise accept (bytes "public")

-- Whether the import ends in ::*.
unfoldable pub import_all : P Bool
import_all = when accept (bytes "::") run (do expect (bytes "*"); pure true) otherwise pure false

unfoldable pub parse_import : P Import
parse_import = do
  start ← here
  visibility
  expect (bytes "import")
  path ← qualified_name
  all ← import_all
  expect (bytes ";")
  span ← end start
  pure (record { path = path; all = all; span = span })

unfoldable pub parse_item_def : P ItemDef
parse_item_def = do
  t ← expect (bytes "item")
  expect (bytes "def")
  s ← short_name
  n ← name
  expect (bytes ";")
  span ← end t.span.start
  pure (record { short_name = s; name = n; span = span })

-- An optional `: Type`, "" where it is left out.
unfoldable pub optional_name : Bytes → P Bytes
optional_name mark = when accept mark run qualified_name otherwise pure []

unfoldable pub direction_of : Bytes → Direction
unfolding bytes_eq
direction_of text =
    if bytes_eq text (bytes "in")
    then direction_in
    else if bytes_eq text (bytes "out")
    then direction_out
    else if bytes_eq text (bytes "inout")
    then direction_in_out
    else direction_zero

unfoldable pub parse_directed_item : P DirectedItem
parse_directed_item = do
  t ← next
  expect (bytes "item")
  n ← name
  type ← optional_name (bytes ":")
  expect (bytes ";")
  span ← end t.span.start
  pure (record { direction = direction_of t.text; name = n; type = type; span = span })

unfoldable pub port_member : PortDef → P PortDef
port_member d =
    when is (bytes "doc")
    run (do
      once d.doc (bytes "doc") (bytes "port definition")
      x ← doc
      pure (record d { doc = some x }))
    otherwise (when is (bytes "in") or_else (is (bytes "out") or_else is (bytes "inout"))
        run (do it ← parse_directed_item; pure (record d { items = d.items ++ it ∷ [] }))
        otherwise unsupported (bytes "port definition"))

unfoldable pub port_body : PortDef → P PortDef
port_body d =
    when accept (bytes ";")
    run pure d
    otherwise (do expect (bytes "{"); x ← body false port_member d; expect (bytes "}"); pure x)

unfoldable pub parse_port_def : P PortDef
parse_port_def = do
  t ← expect (bytes "port")
  expect (bytes "def")
  s ← short_name
  n ← name
  let d : PortDef = record { short_name = s; name = n; doc = none; items = []; span = t.span }
  d' ← port_body d
  span ← end t.span.start
  pure (record d' { span = span })

unfoldable pub parse_port_usage : P PortUsage
parse_port_usage = do
  t ← expect (bytes "port")
  s ← short_name
  n ← name
  expect (bytes ":")
  type ← qualified_name
  expect (bytes ";")
  span ← end t.span.start
  pure (record { short_name = s; name = n; type = type; span = span })

unfoldable pub check_end : FeatureChain → P (Unit {0})
check_end c =
    test not (length c.names == 2)
    run fail c.span (bytes "connect ends must be written as part.port")
    otherwise pure tt

unfoldable pub parse_connect : P Connect
parse_connect = do
  t ← expect (bytes "connect")
  from ← parse_chain
  expect (bytes "to")
  to ← parse_chain
  check_end from
  check_end to
  expect (bytes ";")
  span ← end t.span.start
  pure (record { from = from; to = to; span = span })

unfoldable pub parse_satisfy : P Satisfy
parse_satisfy = do
  t ← expect (bytes "satisfy")
  req ← parse_chain
  expect (bytes "by")
  by ← parse_chain
  expect (bytes ";")
  span ← end t.span.start
  pure (record { requirement = req; by = by; span = span })
