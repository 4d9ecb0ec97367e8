-- ===== src/SymbolDiff/Recovery.antt =====
-- The two texts can be read back from their printed difference.
use prometheus_exporter_fram.Prelude.{
  ℕ, Bool, ◌||◌, List, [], ◌∷◌, nat_beq, nat_eq, list_eq, if◌then◌else◌,
}
use prometheus_exporter_fram.Text.{Text}
use prometheus_exporter_fram.Lines.{split_lines, join_lines}

-- The lines of one side: those that start with a space, or with the side's sign.
abbrev pub on_side : ℕ → ℕ → Bool
on_side sign c = nat_beq c b' ' || nat_beq c sign

unfoldable pub side : ℕ → List Text → List Text
side sign [] = []
side sign ([] ∷ lines) = side sign lines
side sign ((c ∷ []) ∷ lines) = side sign lines
side sign ((c ∷ d ∷ line) ∷ lines) =
    let rest = side sign lines in if on_side sign c then line ∷ rest else rest

-- the lines after the two labels
abbrev pub after_labels : List Text → List Text
after_labels [] = []
after_labels (a ∷ []) = []
after_labels (a ∷ b ∷ lines) = lines

-- both texts, read from what was printed
abbrev pub read_side : ℕ → Text → Text
read_side sign out = join_lines (side sign (after_labels (split_lines out)))
