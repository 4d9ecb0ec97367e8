-- ===== src/Docsgen.antt =====
-- internal/docsgen/main.go: the generated reference. The regular expression of a variable reference is
-- written out as a scan; the files, and what the other expressions find in them, are inputs. Where the
-- program ends with a message the result is `none`.
pub mod Expansion
pub mod Pieces
pub mod Reference
use prometheus_exporter_fram.Prelude.{
  ℕ, zero, suc, ◌+◌, ◌-◌, Bool, true, false, not, ◌&&◌, ◌||◌, Option, none, some, List, [], ◌∷◌,
  ◌++◌, length, nat_beq, nat_eq, list_eq, if◌then◌else◌,
}
use prometheus_exporter_fram.Assoc.{Assoc, lookup}
use prometheus_exporter_fram.Text.{Text, codes, is_empty, between}

-- `[A-Z0-9_]`
unfoldable pub is_name_char : ℕ → Bool
is_name_char c = between b'A' b'Z' c || between b'0' b'9' c || nat_beq c b'_'

-- the longest name at the start of a text, and whether `)` follows
unfoldable pub name_prefix : Text → Text × Bool
name_prefix [] = ([], false)
name_prefix (c ∷ s) =
    let (name, closed) = name_prefix s in
    if is_name_char c then (c ∷ name, closed) else ([], nat_beq c b')')

-- The name of the reference `$(NAME)` at the start of a text.
unfoldable pub reference : Text → Option Text
unfolding name_prefix
reference [] = none
reference (a ∷ []) = none
reference (a ∷ b ∷ s) =
    let (name, closed) = name_prefix s in
    if nat_beq a b'$' && nat_beq b b'(' && closed && not (is_empty name) then some name else none

abbrev pub after_dollar : Text → Text
after_dollar name = b'(' ∷ name ++ b')' ∷ []

abbrev pub reference_text : Text → Text
reference_text name = b'$' ∷ after_dollar name

module _ (vars : Assoc Text Text) where
  -- what takes the place of a reference, and whether it is a change
  abbrev pub replaced : Text → Option Text → Text × Bool
  replaced name none = (reference_text name, false)
  replaced name (some value) = (value, true)

  -- One pass of `ReplaceAllStringFunc`, with the number of characters of a reference that are still
  -- to be skipped.
  unfoldable pub replace_all : ℕ → Text → Text × Bool
  unfolding reference lookup
  replace_all k [] = ([], false)
  replace_all (suc k) (c ∷ s) = replace_all k s
  replace_all zero (c ∷ s) = elim (reference (c ∷ s)) [
    | none ↦ let (rest, changed) = replace_all 0 s in (c ∷ rest, changed)
    | some name ↦
        let (value, here) = replaced name (lookup name vars) in
        let (rest, later) = replace_all (length (after_dollar name)) s in
        (value ++ rest, here || later)
  ]

  -- `expandMakeVariables`, on fuel: the passes until one changes nothing
  unfoldable pub expand_make_variables : ℕ → Text → Option Text
  unfolding replace_all
  expand_make_variables zero value = none
  expand_make_variables (suc n) value =
      let (next, changed) = replace_all 0 value in
      let rest = expand_make_variables n next in if changed then rest else some next

  -- `makeVariable`
  unfoldable pub make_variable : ℕ → Text → Option Text
  unfolding expand_make_variables
  make_variable n name = elim (lookup name vars) [
    | none ↦ none
    | some value ↦ expand_make_variables n value
  ]

-- `makeTarget`
pub record Target : Type 0 where
  pub name : Text
  pub help : Text

abbrev newline : Text
newline = 10 ∷ []

-- `writeTargets` and `writeList`
unfoldable pub write_targets : List Target → Text
write_targets [] = newline
write_targets (t ∷ ts) =
    codes "- `" ++ t.name ++ codes "`: " ++ t.help ++ newline ++ write_targets ts

unfoldable pub write_list : List Text → Text
write_list [] = newline
write_list (v ∷ vs) = codes "- `" ++ v ++ codes "`" ++ newline ++ write_list vs
