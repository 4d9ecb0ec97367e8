-- ===== src/Tests/ToolRuns.antt =====
-- The scripts on small inputs.
use prometheus_exporter_fram.Prelude.{
  map, ℕ, zero, suc, false, none, some, List, [], ◌∷◌, ◌++◌, ◌≡◌, refl, list_eq, nat_eq, ◌==◌,
  if◌then◌else◌,
}
use prometheus_exporter_fram.Assoc.{Assoc, insert, erase}
use prometheus_exporter_fram.Text.{Text, codes}
use prometheus_exporter_fram.Docsgen.{expand_make_variables, make_variable, is_name_char}
use prometheus_exporter_fram.Docsgen.Expansion.{expand_make_variables-ends, below}
use prometheus_exporter_fram.Docsgen.Pieces.{Piece, char, opening, ref, render, texts, known}
use prometheus_exporter_fram.SymbolDiff.{
  Decl, func_decl, run_symbol_diff, star, ident, receiver_name,
}
use prometheus_exporter_fram.Docsgen.Reference.{metadata_line, write_public_api}

abbrev chars : Text → List Piece
chars t = map char t

-- Variables of scaffold/Makefile: those whose values refer to others or call functions, and one that
-- is referred to.
abbrev definitions : Assoc Text (List Piece)
definitions =
    (codes "FRAMEWORK_REPLACE", opening b'a' ∷ chars (codes "bspath ..)"))
    ∷ (
      codes "TARGET_DIR",
      opening b'i' ∷ chars (codes "f ")
          ++ ref (codes "PROJECT_NAME") ∷ chars (codes ",rendered/")
          ++ ref (codes "PROJECT_NAME") ∷ chars (codes ",)"),
    )
    ∷ (codes "CHECK_PROJECT_NAME", chars (codes "prometheus-demo-exporter"))
    ∷ (codes "CHECK_FEATURE_CONFIG_FILE", ref (codes "CHECK_PROJECT_NAME") ∷ chars (codes ".yml"))
    ∷ []

abbrev rank_of : Text → ℕ
rank_of name = if name == codes "CHECK_FEATURE_CONFIG_FILE" then 1 else 0

abbrev value : List Piece
value = ref (codes "CHECK_PROJECT_NAME") ∷ chars (codes ".yml")

expand_make_variables-ends_example :
    (qs : List Piece) × (expand_make_variables (texts definitions) 2 (render value)
      ≡ some (render qs))
    × (known definitions qs ≡ false)
unfolding below is_name_char
expand_make_variables-ends_example =
    expand_make_variables-ends definitions rank_of 1 value refl refl refl

expanded :
    make_variable (texts definitions) 2 (codes "CHECK_FEATURE_CONFIG_FILE")
    ≡ some (codes "prometheus-demo-exporter.yml")
unfolding make_variable texts is_name_char
expanded = refl

kept_calls :
    make_variable (texts definitions) 1 (codes "TARGET_DIR")
    ≡ some (codes "$(if $(PROJECT_NAME),rendered/$(PROJECT_NAME),)")
unfolding make_variable texts is_name_char
kept_calls = refl

-- A variable that refers to itself is expanded again and again.
abbrev cyclic : Assoc Text Text
cyclic = (codes "A", codes "$(A)") ∷ []

cyclic-expansion : (n : ℕ) → expand_make_variables cyclic n (codes "$(A)") ≡ none
unfolding expand_make_variables is_name_char
cyclic-expansion zero = refl
cyclic-expansion (suc n) = cyclic-expansion n

abbrev left_text : Text
left_text = codes "func f() {" ++ 10 ∷ codes "}" ++ 10 ∷ []

abbrev right_text : Text
right_text = codes "func f() {" ++ 10 ∷ codes "return" ++ 10 ∷ codes "}"

same_symbol :
    run_symbol_diff
      (λ keys. keys)
      (codes "a")
      (codes "b")
      (func_decl (some (star (ident (codes "T")))) (codes "f") (codes "x") ∷ [])
      (func_decl (some (star (ident (codes "T")))) (codes "f") (codes "x") ∷ [])
    ≡ codes "SYMBOL OK method *T.f" ++ 10 ∷ []
unfolding run_symbol_diff insert erase receiver_name
same_symbol = refl

-- Of two functions `init` only the last is compared.
abbrev init_function : Text → Decl
init_function text = func_decl none (codes "init") text

second_init :
    run_symbol_diff
      (λ keys. keys)
      (codes "a")
      (codes "b")
      (init_function (codes "x") ∷ init_function (codes "y") ∷ [])
      (init_function (codes "z") ∷ init_function (codes "y") ∷ [])
    ≡ codes "SYMBOL OK func init" ++ 10 ∷ []
unfolding run_symbol_diff insert erase receiver_name
second_init = refl

port_line : metadata_line (codes "port") (codes "9900") ≡ codes "  port:         9900" ++ 10 ∷ []
port_line = refl

one_api :
    write_public_api [] ((codes "a", codes "x") ∷ (codes "a", codes "y") ∷ [])
    ≡ codes "### `a`"
      ++ 10 ∷ 10 ∷ codes "```text"
      ++ 10 ∷ codes "x"
      ++ 10 ∷ codes "```"
      ++ 10 ∷ 10 ∷ []
unfolding write_public_api
one_api = refl
