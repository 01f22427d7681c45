-- ===== src/Filter/Blocks.antt =====
-- internal/filter/filter.go: the text of content blocks, and its lines.
use mcp_content_guard.Base.{ℕ, List, [], ◌∷◌, ◌++◌, if◌then◌else◌}
use mcp_content_guard.Base.Bytes.{Bytes, codes, bytes_eq}
use mcp_content_guard.Base.Lines.{split}
use mcp_content_guard.Json.{Block}

-- The texts of the text blocks.
unfoldable pub text_parts : List Block → List Bytes
text_parts [] = []
text_parts (b ∷ bs) =
    let rest = text_parts bs in if bytes_eq b.type (codes "text") then b.text ∷ rest else rest

abbrev pub newline : ℕ
newline = 10

abbrev pub not_blocks : Bytes → Bytes
not_blocks e = codes "content is not a ContentBlock array: " ++ e

-- The loop of `applyLines`: the lines of all text blocks.
unfoldable pub all_lines : List Block → List Bytes
all_lines [] = []
all_lines (b ∷ bs) =
    let rest = all_lines bs in
    if bytes_eq b.type (codes "text") then split newline b.text ++ rest else rest
