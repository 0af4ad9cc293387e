-- ===== src/SqlTemplate/Opaque.antt =====
-- The regions of an SQL text in which no placeholder stands (internal/sqltemplate/sqltemplate.go: sqlToken):
-- string literals, comments and dollar-quoted strings.
use cannectors.Prelude.{ℕ, ◌≡◌, Bool, false, ◌&&◌, ◌||◌, [], ◌∷◌, ◌++◌, Text, codes, ◌==◌}
use cannectors.SqlTemplate.Scan.{quote, dollar}

pub data Region : Type 0 where
  literal line_comment block_comment dollar_quoted : Region

abbrev pub opening : Region → Text
opening literal = codes "'"
opening line_comment = codes "--"
opening block_comment = codes "/*"
opening dollar_quoted = codes "$$"

abbrev pub closing : Region → Text
closing literal = codes "'"
closing line_comment = []
closing block_comment = codes "*/"
closing dollar_quoted = codes "$$"

abbrev pub has_byte : ℕ → Text → Bool
has_byte a [] = false
has_byte a (c ∷ s) = c == a || has_byte a s

abbrev pub starts_with : ℕ → Text → Bool
starts_with a [] = false
starts_with a (c ∷ s) = c == a

abbrev pub has_bytes : ℕ → ℕ → Text → Bool
has_bytes a b [] = false
has_bytes a b (c ∷ s) = ((c == a) && starts_with b s) || has_bytes a b s

-- The region does not end in its body, and ends after it: a literal has no quote in it and is not followed
-- by one, a line comment ends before a line break or the end of the text, and the others at the first of
-- their closing bytes.
abbrev pub IsOpaque : Region → Text → Text → Type 0
IsOpaque literal body rest = (has_byte quote body ≡ false) × (starts_with quote rest ≡ false)
IsOpaque line_comment body [] = has_byte 10 body ≡ false
IsOpaque line_comment body (c ∷ rest) = (has_byte 10 body ≡ false) × (c ≡ 10)
IsOpaque block_comment body rest = has_bytes 42 47 (body ++ (42 ∷ [])) ≡ false
IsOpaque dollar_quoted body rest = has_bytes dollar dollar (body ++ (dollar ∷ [])) ≡ false
