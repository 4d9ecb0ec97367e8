-- ===== src/Docsgen/Pieces.antt =====
-- A value as its references and what is between them, and one pass of `expandMakeVariables` over it.
use prometheus_exporter_fram.Prelude.{
  ℕ, Bool, true, false, not, ◌&&◌, ◌||◌, Option, none, some, List, [], ◌∷◌, ◌++◌, length, nat_beq,
  nat_eq, list_eq, ◌≡◌, refl, all, arith, map, append_assoc, Option-cases, Bool-cases, inl, inr,
  subst, ◌==◌, ◌∙◌,
}
use prometheus_exporter_fram.Assoc.{Assoc, lookup}
use prometheus_exporter_fram.Text.{Text, is_empty}
use prometheus_exporter_fram.Docsgen.{
  is_name_char, name_prefix, reference, replaced, replace_all, after_dollar,
}

-- A value with its references, and the openings of calls of functions such as `$(abspath ..)`, told
-- apart from the other characters; `opening` is given the first character after the parenthesis.
pub data Piece : Type 0 where
  char : ℕ → Piece
  opening : ℕ → Piece
  ref : Text → Piece

unfoldable pub render : List Piece → Text
render [] = []
render (char c ∷ ps) = c ∷ render ps
render (opening c ∷ ps) = b'$' ∷ b'(' ∷ c ∷ render ps
render (ref name ∷ ps) = b'$' ∷ b'(' ∷ (name ++ b')' ∷ render ps)

-- The other characters are no dollar signs, names are as the expression has them, and no name
-- begins with the first character of a call.
abbrev pub is_piece : Piece → Bool
is_piece (char c) = not (nat_beq c b'$')
is_piece (opening c) = not (is_name_char c) && not (nat_beq c b'$')
is_piece (ref name) = not (is_empty name) && all is_name_char name

pub and_true : (a b : Bool) → (a && b) ≡ true → (a ≡ true) × (b ≡ true)
and_true a b h = (ground arith, ground arith)

module _ (defs : Assoc Text (List Piece)) where
  -- the references replaced once
  abbrev put : Text → Option (List Piece) → List Piece
  put name none = ref name ∷ []
  put name (some ps) = ps

  unfoldable pub substitute : List Piece → List Piece
  unfolding lookup
  substitute [] = []
  substitute (char c ∷ ps) = char c ∷ substitute ps
  substitute (opening c ∷ ps) = opening c ∷ substitute ps
  substitute (ref name ∷ ps) = put name (lookup name defs) ++ substitute ps

  unfoldable pub known : List Piece → Bool
  unfolding lookup
  known [] = false
  known (char c ∷ ps) = known ps
  known (opening c ∷ ps) = known ps
  known (ref name ∷ ps) = elim (lookup name defs) [ none ↦ false | some qs ↦ true ] || known ps

  -- the variables as the file has them
  unfoldable pub texts : Assoc Text Text
  unfolding render
  texts = map (λ d. (d.0, render d.1)) defs

pub render-append : (ps qs : List Piece) → render (ps ++ qs) ≡ render ps ++ render qs
unfolding render
render-append [] qs = refl
render-append (char c ∷ ps) qs = rw (render-append ps qs) refl
render-append (opening c ∷ ps) qs = rw (render-append ps qs) refl
render-append (ref name ∷ ps) qs =
    rw (render-append ps qs, append_assoc name (b')' ∷ render ps) (render qs)) refl

name_prefix-name :
    (name s : Text) → all is_name_char name ≡ true → name_prefix (name ++ b')' ∷ s) ≡ (name, true)
unfolding name_prefix is_name_char
name_prefix-name [] s h = refl
name_prefix-name (c ∷ name) s h = ground (arith, name_prefix-name name s)

reference-ref :
    (name s : Text)
    → is_piece (ref name) ≡ true
    → reference (b'$' ∷ b'(' ∷ (name ++ b')' ∷ s)) ≡ some name
unfolding reference
reference-ref name s h = ground (arith, name_prefix-name name s)

reference-char : (c : ℕ) (s : Text) → is_piece (char c) ≡ true → reference (c ∷ s) ≡ none
unfolding reference
reference-char c [] h = refl
reference-char c (d ∷ s) h = ground arith

reference-opening :
    (c : ℕ) (s : Text) → is_piece (opening c) ≡ true → reference (b'$' ∷ b'(' ∷ c ∷ s) ≡ none
unfolding reference name_prefix
reference-opening c s h = ground arith

reference-other : (c : ℕ) (s : Text) → nat_beq c b'$' ≡ false → reference (c ∷ s) ≡ none
unfolding reference
reference-other c [] h = refl
reference-other c (d ∷ s) h = ground arith

replace_all-skip :
    (vars : Assoc Text Text) (xs s : Text)
    → replace_all vars (length xs) (xs ++ s) ≡ replace_all vars 0 s
unfolding replace_all
replace_all-skip vars [] s = refl
replace_all-skip vars (x ∷ xs) s = replace_all-skip vars xs s

-- past the rest of a reference
replace_all-past :
    (vars : Assoc Text Text) (name s : Text)
    → replace_all vars (length (after_dollar name)) (b'(' ∷ (name ++ b')' ∷ s))
      ≡ replace_all vars 0 s
unfolding replace_all
replace_all-past vars name s =
    subst (λ t. replace_all vars (length (after_dollar name)) (b'(' ∷ t) ≡ replace_all vars 0 s)
      (append_assoc name (b')' ∷ []) s) (replace_all-skip vars (after_dollar name) s)

lookup-texts :
    (name : Text) (defs : Assoc Text (List Piece))
    → lookup name (texts defs)
      ≡ elim (lookup name defs) [ none ↦ none | some ps ↦ some (render ps) ]
unfolding texts lookup
lookup-texts name [] = refl
lookup-texts name ((k, ps) ∷ defs) = elim (Bool-cases (k == name)) [
  | inl h ↦ rw (h) refl
  | inr h ↦ rw (h) (lookup-texts name defs)
]

-- the pass at a reference
abbrev at_reference : Assoc Text Text → Text → Text → Text × Bool
at_reference vars name s =
    let (value, here_) = replaced vars name (lookup name vars) in
    let (rest, later) = replace_all vars (length (after_dollar name)) s in
    (value ++ rest, here_ || later)

replace_all-reference :
    (vars : Assoc Text Text) (c : ℕ) (s name : Text)
    → reference (c ∷ s) ≡ some name
    → replace_all vars 0 (c ∷ s) ≡ at_reference vars name s
unfolding replace_all
replace_all-reference vars c s name h = rw (h, replace_all) refl

pub replace_all-render :
    (defs : Assoc Text (List Piece)) (ps : List Piece)
    → all is_piece ps ≡ true
    → replace_all (texts defs) 0 (render ps) ≡ (render (substitute defs ps), known defs ps)
unfolding replace_all render substitute known
replace_all-render defs [] h = refl
replace_all-render defs (char c ∷ ps) h =
    let (first, rest) = and_true (is_piece (char c)) (all is_piece ps) h in
    rw (reference-char c (render ps) first, replace_all-render defs ps rest, replace_all) refl
replace_all-render defs (opening c ∷ ps) h =
    let (first, rest) = and_true (is_piece (opening c)) (all is_piece ps) h in
    rw
      (
        reference-opening c (render ps) first,
        reference-other c (render ps) (ground arith),
        replace_all-render defs ps rest,
        replace_all,
      )
      refl
replace_all-render defs (ref name ∷ ps) h =
    let (first, rest) = and_true (is_piece (ref name)) (all is_piece ps) h in
    let p =
      replace_all-reference (texts defs) (b'$') (b'(' ∷ (name ++ b')' ∷ render ps)) name
        (reference-ref name (render ps) first) in
    p ∙ elim (Option-cases (lookup name defs)) [
      | inl k ↦
          rw
            (
              replace_all-past (texts defs) name (render ps),
              replace_all-render defs ps rest,
              lookup-texts name defs,
              k,
            )
            (rw (append_assoc name (b')' ∷ []) (render (substitute defs ps))) refl)
      | inr (qs, k) ↦
          rw
            (
              replace_all-past (texts defs) name (render ps),
              replace_all-render defs ps rest,
              lookup-texts name defs,
              k,
            )
            (rw (render-append qs (substitute defs ps)) refl)
    ]
