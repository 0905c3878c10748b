-- ===== src/Syntax/Docs.antt =====
-- adapter/syntax/parser.go: docText, with the functions of package strings that it calls.
use mathlib.Core.List.{reverse}
use sysml_federation.Base.{
  ℕ, zero, suc, List, [], ◌∷◌, Option, none, some, ◌==◌, if◌then◌else◌, map, Bytes, bytes,
  has_prefix, join, drop, length,
}

-- The white space of Unicode, encoded in UTF-8: those of one byte, and the others.
abbrev spaces : List Bytes
spaces =
    (9 ∷ [])
    ∷ (10 ∷ [])
    ∷ (11 ∷ [])
    ∷ (12 ∷ [])
    ∷ (13 ∷ [])
    ∷ (32 ∷ [])
    ∷ (0xc2 ∷ 0x85 ∷ [])
    ∷ (0xc2 ∷ 0xa0 ∷ [])
    ∷ (0xe1 ∷ 0x9a ∷ 0x80 ∷ [])
    ∷ (0xe2 ∷ 0x80 ∷ 0x80 ∷ [])
    ∷ (0xe2 ∷ 0x80 ∷ 0x81 ∷ [])
    ∷ (0xe2 ∷ 0x80 ∷ 0x82 ∷ [])
    ∷ (0xe2 ∷ 0x80 ∷ 0x83 ∷ [])
    ∷ (0xe2 ∷ 0x80 ∷ 0x84 ∷ [])
    ∷ (0xe2 ∷ 0x80 ∷ 0x85 ∷ [])
    ∷ (0xe2 ∷ 0x80 ∷ 0x86 ∷ [])
    ∷ (0xe2 ∷ 0x80 ∷ 0x87 ∷ [])
    ∷ (0xe2 ∷ 0x80 ∷ 0x88 ∷ [])
    ∷ (0xe2 ∷ 0x80 ∷ 0x89 ∷ [])
    ∷ (0xe2 ∷ 0x80 ∷ 0x8a ∷ [])
    ∷ (0xe2 ∷ 0x80 ∷ 0xa8 ∷ [])
    ∷ (0xe2 ∷ 0x80 ∷ 0xa9 ∷ [])
    ∷ (0xe2 ∷ 0x80 ∷ 0xaf ∷ [])
    ∷ (0xe2 ∷ 0x81 ∷ 0x9f ∷ [])
    ∷ (0xe3 ∷ 0x80 ∷ 0x80 ∷ [])
    ∷ []

-- What is left behind the first of the texts that stands in front.
strip_first : List Bytes → Bytes → Option Bytes
unfolding has_prefix
strip_first [] s = none
strip_first (p ∷ ps) s = if has_prefix s p then some (drop (length p) s) else strip_first ps s

-- Every text in front, again and again; the fuel is the length of the text.
strip : List Bytes → ℕ → Bytes → Bytes
strip ps zero s = s
strip ps (suc fuel) s = elim (strip_first ps s) [ none ↦ s | some rest ↦ strip ps fuel rest ]

-- strings.TrimSpace
unfoldable pub trim_space : Bytes → Bytes
unfolding strip strip_first
trim_space s =
    let front = strip spaces (length s) s in
    reverse (strip (map reverse spaces) (length front) (reverse front))

-- strings.TrimPrefix(s, "*")
unfoldable pub trim_star : Bytes → Bytes
trim_star [] = []
trim_star (c ∷ cs) = if c == b'*' then cs else c ∷ cs

-- strings.Split(raw, "\n"): one more part than there are newlines
unfoldable pub split_lines : Bytes → List Bytes
split_lines [] = [] ∷ []
split_lines (c ∷ cs) = elim (split_lines cs) [
  | [] ↦ []
  | line ∷ lines ↦ if c == b'\n' then [] ∷ line ∷ lines else (c ∷ line) ∷ lines
]

-- The lines that are not empty, each trimmed and without its asterisk.
unfoldable pub doc_lines : List Bytes → List Bytes
doc_lines [] = []
doc_lines (l ∷ ls) = elim (trim_space (trim_star (trim_space l))) [
  | [] ↦ doc_lines ls
  | c ∷ line ↦ (c ∷ line) ∷ doc_lines ls
]

unfoldable pub doc_text : Bytes → Bytes
doc_text raw = join (doc_lines (split_lines raw)) (bytes " ")
