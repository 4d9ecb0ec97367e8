-- ===== src/SymbolDiff.antt =====
-- scaffold/scripts/go-symbol-diff.go: the comparison of the declarations of two Go files. The parsed
-- files are inputs, with the text of each node as `format.Node` prints it, trimmed; `sort` is
-- `sort.Strings`. What is written to the standard output is the result.
pub mod Recovery
use prometheus_exporter_fram.Prelude.{
  ℕ, zero, suc, ◌+◌, Bool, true, false, Option, none, some, List, [], ◌∷◌, ◌++◌, map, nat_beq,
  nat_eq, list_eq, ◌==◌, if◌then◌else◌, any,
}
use prometheus_exporter_fram.Assoc.{Assoc, lookup, insert}
use prometheus_exporter_fram.Text.{Text, codes}
use prometheus_exporter_fram.Lines.{split_lines, join_lines, trim_newlines}

-- `ast.Expr`, as `receiverName` tells them apart
pub data Expr : Type 0 where
  ident : Text → Expr
  star : Expr → Expr
  index : Expr → Expr
  index_list : Expr → Expr
  printed : Text → Expr

-- `ast.Spec`, with its text
pub data Spec : Type 0 where
  type_spec : Text → Text → Spec
  value_spec : List Text → Text → Spec
  other_spec : Spec

-- `ast.Decl`: a function has the type of its receiver, its name and its text, and a general one its
-- token and its specs.
pub data Decl : Type 0 where
  func_decl : Option Expr → Text → Text → Decl
  gen_decl : Text → List Spec → Decl
  other_decl : Decl

pub record Symbol : Type 0 where
  pub key : Text
  pub order : ℕ
  pub text : Text

-- `receiverName`
unfoldable pub receiver_name : Expr → Text
receiver_name (ident name) = name
receiver_name (star e) = codes "*" ++ receiver_name e
receiver_name (index e) = receiver_name e
receiver_name (index_list e) = receiver_name e
receiver_name (printed text) = text

abbrev pub func_key : Option Expr → Text → Text
func_key none name = codes "func " ++ name
func_key (some e) name = codes "method " ++ receiver_name e ++ codes "." ++ name

-- `genSpecText`
abbrev pub gen_spec_text : Text → Text → Text
gen_spec_text token text = token ++ codes " " ++ text

-- `out[key] = symbol{…}`
abbrev pub put : Text → ℕ → Text → Assoc Text Symbol → Assoc Text Symbol
put key order text out = insert key (record { key = key; order = order; text = text }) out

unfoldable pub add_names : Text → ℕ → Text → List Text → Assoc Text Symbol → Assoc Text Symbol
add_names token order text [] out = out
add_names token order text (name ∷ names) out =
    add_names token order text names (put (token ++ codes " " ++ name) order text out)

unfoldable pub add_specs : Text → ℕ → List Spec → Assoc Text Symbol → ℕ × Assoc Text Symbol
unfolding add_names
add_specs token order [] out = (order, out)
add_specs token order (type_spec name text ∷ specs) out =
    add_specs token (suc order) specs
      (put (codes "type " ++ name) (suc order) (gen_spec_text token text) out)
add_specs token order (value_spec names text ∷ specs) out =
    add_specs token (suc order) specs
      (add_names token (suc order) (gen_spec_text token text) names out)
add_specs token order (other_spec ∷ specs) out = add_specs token (suc order) specs out

-- `symbols`, from the declarations of the file
unfoldable pub symbols_loop : ℕ → List Decl → Assoc Text Symbol → Assoc Text Symbol
unfolding add_specs
symbols_loop order [] out = out
symbols_loop order (func_decl recv name text ∷ decls) out =
    symbols_loop (suc order) decls (put (func_key recv name) (suc order) text out)
symbols_loop order (gen_decl token specs ∷ decls) out =
    let (order', out') = add_specs token order specs out in symbols_loop order' decls out'
symbols_loop order (other_decl ∷ decls) out = symbols_loop order decls out

unfoldable pub symbols : List Decl → Assoc Text Symbol
unfolding symbols_loop
symbols decls = symbols_loop 0 decls []

-- `indent`
unfoldable pub indent : Text → Text
unfolding split_lines join_lines trim_newlines
indent value = join_lines (map (λ line. codes "    " ++ line) (split_lines (trim_newlines value)))

abbrev pub line_of : Text → Text → Text
line_of start rest = start ++ rest ++ 10 ∷ []

-- the loop of `printLineDiff`
unfoldable pub diff_lines : List Text → List Text → Text
diff_lines [] [] = []
diff_lines [] (r ∷ right) = line_of (codes "+ ") r ++ diff_lines [] right
diff_lines (l ∷ left) [] = line_of (codes "- ") l ++ diff_lines left []
diff_lines (l ∷ left) (r ∷ right) =
    let rest = diff_lines left right in
    if l == r
    then line_of (codes "  ") l ++ rest
    else line_of (codes "- ") l ++ line_of (codes "+ ") r ++ rest

-- `printLineDiff`
unfoldable pub print_line_diff : Text → Text → Text → Text → Text
unfolding diff_lines split_lines trim_newlines
print_line_diff left_label left right_label right =
    line_of (codes "--- ") left_label
    ++ line_of (codes "+++ ") right_label
    ++ diff_lines (split_lines (trim_newlines left)) (split_lines (trim_newlines right))

-- what is written for a key
unfoldable pub compare_symbol : Text → Text → Text → Option Symbol → Option Symbol → Text
unfolding indent print_line_diff
compare_symbol left_label right_label key none none = line_of (codes "SYMBOL MISSING target ") key
compare_symbol left_label right_label key none (some r) =
    line_of (codes "SYMBOL MISSING target ") key
    ++ line_of (codes "+++ ") (right_label ++ codes " " ++ key)
    ++ line_of [] (indent r.text)
compare_symbol left_label right_label key (some l) none =
    line_of (codes "SYMBOL EXTRA target ") key
    ++ line_of (codes "--- ") (left_label ++ codes " " ++ key)
    ++ line_of [] (indent l.text)
compare_symbol left_label right_label key (some l) (some r) =
    if l.text == r.text
    then line_of (codes "SYMBOL OK ") key
    else line_of (codes "SYMBOL DIFF ") key
      ++ print_line_diff (left_label ++ codes " " ++ key) l.text (right_label ++ codes " " ++ key)
          r.text

abbrev pub union_keys : List Text → Assoc Text Symbol → List Text
union_keys seen [] = seen
union_keys seen ((k, s) ∷ m) = union_keys (if any (λ x. x == k) seen then seen else k ∷ seen) m

unfoldable pub compare_keys : Text → Text → Assoc Text Symbol → Assoc Text Symbol → List Text → Text
unfolding compare_symbol lookup
compare_keys left_label right_label left right [] = []
compare_keys left_label right_label left right (key ∷ keys) =
    compare_symbol left_label right_label key (lookup key left) (lookup key right)
    ++ compare_keys left_label right_label left right keys

-- `runSymbolDiff`, once both files are parsed
unfoldable pub run_symbol_diff :
    (List Text → List Text) → Text → Text → List Decl → List Decl → Text
unfolding compare_keys symbols
run_symbol_diff sort left_label right_label left_file right_file =
    let left = symbols left_file in
    let right = symbols right_file in
    compare_keys left_label right_label left right (sort (union_keys (union_keys [] left) right))
