-- ===== src/Syntax/Position.antt =====
-- adapter/syntax/token.go: Position and ErrorAt, with what a position means.
use sysml_federation.Base.{
  ℕ, zero, suc, ◌+◌, ◌-◌, ◌≤◌, ◌≡◌, [], ◌∷◌, arith, ◌==◌, if◌then◌else◌, Bytes, length, take,
}
use sysml_federation.Syntax.Token.{Span, Error}

-- The loop of Position at index i over what is left of the source and of the offset.
position_loop : Bytes → ℕ → ℕ → ℕ → ℕ → ℕ × ℕ
position_loop [] todo i line line_start = (line, line_start)
position_loop (c ∷ rest) zero i line line_start = (line, line_start)
position_loop (c ∷ rest) (suc todo) i line line_start =
    position_loop rest todo (i + 1) (if c == b'\n' then line + 1 else line)
      (if c == b'\n' then i + 1 else line_start)

unfoldable pub position : Bytes → ℕ → ℕ × ℕ
unfolding position_loop
position src offset =
    let (line, line_start) = position_loop src offset 0 1 0 in (line, offset - line_start + 1)

unfoldable pub error_at : Bytes → Bytes → Span → Bytes → Error
unfolding position
error_at file src at message =
    let (line, column) = position src at.start in
    record { file = file; line = line; column = column; message = message }

-- The newlines of a text.
abbrev pub newlines : Bytes → ℕ
newlines [] = 0
newlines (c ∷ cs) = (if c == b'\n' then 1 else 0) + newlines cs

-- The bytes behind the last newline, where `seen` have been read since one before the text.
abbrev since_newline : ℕ → Bytes → ℕ
since_newline seen [] = seen
since_newline seen (c ∷ cs) = since_newline (if c == b'\n' then 0 else seen + 1) cs

abbrev pub last_line : Bytes → ℕ
last_line = since_newline 0

position_loop_line :
    (src : Bytes) (todo i line start : ℕ)
    → (position_loop src todo i line start).0 ≡ line + newlines (take todo src)
unfolding position_loop
position_loop_line [] zero i line start = omega arith
position_loop_line [] (suc todo) i line start = omega arith
position_loop_line (c ∷ rest) zero i line start = omega arith
position_loop_line (c ∷ rest) (suc todo) i line start = ground (
  arith,
  position_loop_line rest todo (i + 1) (if c == b'\n' then line + 1 else line)
      (if c == b'\n' then i + 1 else start),
)

position_loop_start :
    (src : Bytes) (todo i line start seen : ℕ)
    → i ≡ start + seen
    → todo ≤ length src
    → (position_loop src todo i line start).1 + since_newline seen (take todo src) ≡ i + todo
unfolding position_loop
position_loop_start [] zero i line start seen h k = omega arith
position_loop_start [] (suc todo) i line start seen h k = absurd (omega arith)
position_loop_start (c ∷ rest) zero i line start seen h k = omega arith
position_loop_start (c ∷ rest) (suc todo) i line start seen h k = ground (
  arith,
  position_loop_start rest todo (i + 1) (line + 1) (i + 1) 0,
  position_loop_start rest todo (i + 1) line start (seen + 1),
)

-- The position of an offset inside the source: the line is one more than the newlines before it,
-- and the column one more than the bytes between the last of them and the offset.
pub position_lem :
    (src : Bytes) (offset : ℕ)
    → offset ≤ length src
    → position src offset ≡ (newlines (take offset src) + 1, last_line (take offset src) + 1)
unfolding position
position_lem src offset h = ground (
  arith,
  position_loop_line src offset 0 1 0,
  position_loop_start src offset 0 1 0 0 (omega arith) h,
)
