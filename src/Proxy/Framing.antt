-- ===== src/Proxy/Framing.antt =====
-- The lines that one end writes are the lines that the other reads.
use mathlib.Core.List.{reverse, reverse_aux}
use mcp_content_guard.Base.{◌≡◌, refl, ap, ◌∙◌, List, [], ◌∷◌, ◌++◌, All, if◌then◌else◌}
use mcp_content_guard.Base.Bytes.{Bytes, bytes_eq}
use mcp_content_guard.Base.Space.{drop_newlines, trim_newlines}
use mcp_content_guard.Proxy.{read_lines, write_lines}
use mcp_content_guard.Proxy.Lines.{
  LacksNewline, IsLine, read_lines-IsLine, trim_newlines-reverse, trim_newlines-same,
}

-- Up to the next line feed, everything belongs to one line.
read_lines-ended :
    (line rest current : Bytes)
    → LacksNewline line
    → read_lines current (line ++ 10 ∷ rest) ≡ (
        let whole = trim_newlines (reverse (10 ∷ reverse_aux line current)) in
        if bytes_eq whole [] then read_lines [] rest else whole ∷ read_lines [] rest)
unfolding read_lines
read_lines-ended [] rest current h = refl
read_lines-ended (c ∷ line) rest current h = rw h.0 (read_lines-ended line rest (c ∷ current) h.1)

-- The line feed behind a line is taken off again.
trim_newlines-ended :
    (line : Bytes)
    → trim_newlines line ≡ line
    → trim_newlines (reverse (10 ∷ reverse_aux line [])) ≡ line
unfolding trim_newlines drop_newlines
trim_newlines-ended line h = trim_newlines-reverse (10 ∷ reverse line) ∙ h

-- Lines that are not empty, hold no line feed and do not end in a carriage return are read from the
-- output of the proxy as they were sent.
pub read_lines-write_lines :
    (lines : List Bytes) → All IsLine lines → read_lines [] (write_lines lines) ≡ lines
unfolding write_lines read_lines trim_newlines drop_newlines bytes_eq
read_lines-write_lines [] h = refl
read_lines-write_lines (line ∷ lines) h =
    let same = trim_newlines-ended line (trim_newlines-same line h.0.1 h.0.2) in
    read_lines-ended line (write_lines lines) [] h.0.1
    ∙ rw same (rw h.0.0 (ap (line ∷◌) (read_lines-write_lines lines h.1)))

-- What a peer reads from the lines that the proxy passes on is what the proxy read.
read_lines_again :
    (input : Bytes) → read_lines [] (write_lines (read_lines [] input)) ≡ read_lines [] input
read_lines_again input =
    read_lines-write_lines (read_lines [] input) (read_lines-IsLine input [] tt)
