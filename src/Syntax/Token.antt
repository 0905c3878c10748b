-- ===== src/Syntax/Token.antt =====
-- adapter/syntax/token.go: spans, token kinds, tokens and the error of a refused construct.
use sysml_federation.Base.{ℕ, List, [], ◌∷◌, Bool, ◌==◌, Bytes, bytes, one_of}

-- A half-open byte range of the source. The fields are Start and End.
pub record Span : Type 0 where
  pub start : ℕ
  pub stop : ℕ

pub data Kind : Type 0 where
  eof ident name keyword number string comment punct : Kind

-- The value that iota gives a kind.
abbrev pub kind_value : Kind → ℕ
kind_value eof = 0
kind_value ident = 1
kind_value name = 2
kind_value keyword = 3
kind_value number = 4
kind_value string = 5
kind_value comment = 6
kind_value punct = 7

abbrev pub kind_eq : Kind → Kind → Bool
kind_eq a b = kind_value a == kind_value b

pub record Token : Type 0 where
  pub kind : Kind
  pub text : Bytes
  pub span : Span

pub record Error : Type 0 where
  pub file : Bytes
  pub line : ℕ
  pub column : ℕ
  pub message : Bytes

-- The reserved words.
unfoldable pub keywords : List Bytes
keywords =
    bytes "about"
    ∷ bytes "abstract"
    ∷ bytes "accept"
    ∷ bytes "action"
    ∷ bytes "actor"
    ∷ bytes "after"
    ∷ bytes "alias"
    ∷ bytes "all"
    ∷ bytes "allocate"
    ∷ bytes "allocation"
    ∷ bytes "analysis"
    ∷ bytes "and"
    ∷ bytes "as"
    ∷ bytes "assert"
    ∷ bytes "assign"
    ∷ bytes "assoc"
    ∷ bytes "assume"
    ∷ bytes "at"
    ∷ bytes "attribute"
    ∷ bytes "bind"
    ∷ bytes "binding"
    ∷ bytes "by"
    ∷ bytes "calc"
    ∷ bytes "case"
    ∷ bytes "comment"
    ∷ bytes "concern"
    ∷ bytes "connect"
    ∷ bytes "connection"
    ∷ bytes "const"
    ∷ bytes "constant"
    ∷ bytes "constraint"
    ∷ bytes "crossing"
    ∷ bytes "decide"
    ∷ bytes "def"
    ∷ bytes "default"
    ∷ bytes "defined"
    ∷ bytes "dependency"
    ∷ bytes "derived"
    ∷ bytes "do"
    ∷ bytes "doc"
    ∷ bytes "else"
    ∷ bytes "end"
    ∷ bytes "entry"
    ∷ bytes "enum"
    ∷ bytes "event"
    ∷ bytes "exhibit"
    ∷ bytes "exit"
    ∷ bytes "expose"
    ∷ bytes "false"
    ∷ bytes "filter"
    ∷ bytes "first"
    ∷ bytes "flow"
    ∷ bytes "for"
    ∷ bytes "fork"
    ∷ bytes "frame"
    ∷ bytes "from"
    ∷ bytes "hastype"
    ∷ bytes "if"
    ∷ bytes "implies"
    ∷ bytes "import"
    ∷ bytes "in"
    ∷ bytes "include"
    ∷ bytes "individual"
    ∷ bytes "inout"
    ∷ bytes "interface"
    ∷ bytes "istype"
    ∷ bytes "item"
    ∷ bytes "join"
    ∷ bytes "language"
    ∷ bytes "library"
    ∷ bytes "locale"
    ∷ bytes "loop"
    ∷ bytes "merge"
    ∷ bytes "message"
    ∷ bytes "meta"
    ∷ bytes "metadata"
    ∷ bytes "nonunique"
    ∷ bytes "not"
    ∷ bytes "null"
    ∷ bytes "objective"
    ∷ bytes "occurrence"
    ∷ bytes "of"
    ∷ bytes "or"
    ∷ bytes "ordered"
    ∷ bytes "out"
    ∷ bytes "package"
    ∷ bytes "parallel"
    ∷ bytes "part"
    ∷ bytes "perform"
    ∷ bytes "port"
    ∷ bytes "portion"
    ∷ bytes "private"
    ∷ bytes "protected"
    ∷ bytes "public"
    ∷ bytes "readonly"
    ∷ bytes "redefines"
    ∷ bytes "ref"
    ∷ bytes "references"
    ∷ bytes "render"
    ∷ bytes "rendering"
    ∷ bytes "rep"
    ∷ bytes "require"
    ∷ bytes "requirement"
    ∷ bytes "return"
    ∷ bytes "satisfy"
    ∷ bytes "send"
    ∷ bytes "snapshot"
    ∷ bytes "specializes"
    ∷ bytes "stakeholder"
    ∷ bytes "standard"
    ∷ bytes "state"
    ∷ bytes "subject"
    ∷ bytes "subsets"
    ∷ bytes "succession"
    ∷ bytes "terminate"
    ∷ bytes "then"
    ∷ bytes "timeslice"
    ∷ bytes "to"
    ∷ bytes "transition"
    ∷ bytes "true"
    ∷ bytes "until"
    ∷ bytes "use"
    ∷ bytes "variant"
    ∷ bytes "variation"
    ∷ bytes "verification"
    ∷ bytes "verify"
    ∷ bytes "via"
    ∷ bytes "view"
    ∷ bytes "viewpoint"
    ∷ bytes "when"
    ∷ bytes "while"
    ∷ bytes "xor"
    ∷ []

-- keywords[w]
unfoldable pub is_keyword : Bytes → Bool
unfolding keywords one_of
is_keyword w = one_of keywords w
