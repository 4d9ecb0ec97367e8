-- ===== src/Docsgen/Expansion.antt =====
-- The expansion of variables ends, where no variable leads back to itself.
use prometheus_exporter_fram.Prelude.{
  ℕ, zero, suc, ◌≤◌, Bool, true, false, ◌&&◌, none, some, List, [], ◌∷◌, ◌++◌, nat_eq, list_eq, ◌≡◌,
  refl, all, arith, Option-cases, Bool-cases, inl, inr, subst, ◌==◌, ltb, ==_iff,
}
use prometheus_exporter_fram.Assoc.{Assoc, lookup}
use prometheus_exporter_fram.Text.{Text}
use prometheus_exporter_fram.Docsgen.{expand_make_variables}
use prometheus_exporter_fram.Docsgen.Pieces.{
  Piece, char, opening, ref, render, is_piece, and_true, substitute, known, texts,
  replace_all-render,
}

module _ (defs : Assoc Text (List Piece)) (rank : Text → ℕ) where
  -- The variables that are referred to have a rank below a bound.
  unfoldable pub below : ℕ → List Piece → Bool
  unfolding lookup
  below n [] = true
  below n (char c ∷ ps) = below n ps
  below n (opening c ∷ ps) = below n ps
  below n (ref name ∷ ps) =
      elim (lookup name defs) [ none ↦ true | some qs ↦ ltb (rank name) n ] && below n ps

  -- Values are made of pieces, and refer to variables of a lower rank.
  abbrev pub is_ranked : Assoc Text (List Piece) → Bool
  is_ranked [] = true
  is_ranked ((name, ps) ∷ more) = (all is_piece ps && below (rank name) ps) && is_ranked more

  all-append :
      (p : Piece → Bool) (ps qs : List Piece)
      → all p ps ≡ true
      → all p qs ≡ true
      → all p (ps ++ qs) ≡ true
  all-append p [] qs h k = k
  all-append p (x ∷ ps) qs h k = ground (arith, all-append p ps qs)

  below-append :
      (n : ℕ) (ps qs : List Piece)
      → below n ps ≡ true
      → below n qs ≡ true
      → below n (ps ++ qs) ≡ true
  unfolding below
  below-append n [] qs h k = k
  below-append n (char c ∷ ps) qs h k = below-append n ps qs h k
  below-append n (opening c ∷ ps) qs h k = below-append n ps qs h k
  below-append n (ref name ∷ ps) qs h k = ground (arith, below-append n ps qs)

  below_mono : (m n : ℕ) (ps : List Piece) → m ≤ n → below m ps ≡ true → below n ps ≡ true
  unfolding below
  below_mono m n [] l h = h
  below_mono m n (char c ∷ ps) l h = below_mono m n ps l h
  below_mono m n (opening c ∷ ps) l h = below_mono m n ps l h
  below_mono m n (ref name ∷ ps) l h = ground (arith, below_mono m n ps l)

  ranked-lookup :
      (name : Text) (qs : List Piece) (more : Assoc Text (List Piece))
      → is_ranked more ≡ true
      → lookup name more ≡ some qs
      → (all is_piece qs ≡ true) × (below (rank name) qs ≡ true)
  unfolding lookup
  ranked-lookup name qs [] h k = absurd (cc)
  ranked-lookup name qs ((x, ps) ∷ more) h k =
      let (first, rest) = and_true (all is_piece ps && below (rank x) ps) (is_ranked more) h in
      let (pieces, low) = and_true (all is_piece ps) (below (rank x) ps) first in
      elim (Bool-cases (x == name)) [
        | inl e ↦
            let same : x ≡ name = (==_iff x name).0 e in
            let found : ps ≡ qs = ground arith in
            (
              subst (λ t. all is_piece t ≡ true) found pieces,
              subst (λ t. below (rank name) t ≡ true) found
                  (subst (λ t. below (rank t) ps ≡ true) same low),
            )
        | inr e ↦ ranked-lookup name qs more rest (ground arith)
      ]

  -- after one substitution the bound is lower
  substitute-below :
      (n : ℕ) (ps : List Piece)
      → is_ranked defs ≡ true
      → all is_piece ps ≡ true
      → below (suc n) ps ≡ true
      → (all is_piece (substitute defs ps) ≡ true) × (below n (substitute defs ps) ≡ true)
  unfolding substitute below
  substitute-below n [] ranked p b = (refl, refl)
  substitute-below n (char c ∷ ps) ranked p b =
      let (first, rest) = and_true (is_piece (char c)) (all is_piece ps) p in
      let (p', b') = substitute-below n ps ranked rest b in (rw (first, p') refl, b')
  substitute-below n (opening c ∷ ps) ranked p b =
      let (first, rest) = and_true (is_piece (opening c)) (all is_piece ps) p in
      let (p', b') = substitute-below n ps ranked rest b in (rw (first, p') refl, b')
  substitute-below n (ref name ∷ ps) ranked p b =
      let (first, rest) = and_true (is_piece (ref name)) (all is_piece ps) p in
      elim (Option-cases (lookup name defs)) [
        | inl k ↦
            let (p', b') = substitute-below n ps ranked rest (ground arith) in
            rw (k) (ground arith, ground arith)
        | inr (qs, k) ↦
            let (p', b') = substitute-below n ps ranked rest (ground arith) in
            let (q, l) = ranked-lookup name qs defs ranked k in
            rw (k) (
              all-append is_piece qs (substitute defs ps) q p',
              below-append n qs (substitute defs ps) (below_mono (rank name) n qs (ground arith) l)
                  b',
            )
      ]

  unknown-substitute : (ps : List Piece) → known defs ps ≡ false → substitute defs ps ≡ ps
  unfolding known substitute
  unknown-substitute [] h = refl
  unknown-substitute (char c ∷ ps) h = rw (unknown-substitute ps h) refl
  unknown-substitute (opening c ∷ ps) h = rw (unknown-substitute ps h) refl
  unknown-substitute (ref name ∷ ps) h = elim (Option-cases (lookup name defs)) [
    | inl k ↦ rw (k, unknown-substitute ps (ground arith)) refl
    | inr (qs, k) ↦ absurd (ground arith)
  ]

  none-known : (ps : List Piece) → below 0 ps ≡ true → known defs ps ≡ false
  unfolding below known
  none-known [] h = refl
  none-known (char c ∷ ps) h = none-known ps h
  none-known (opening c ∷ ps) h = none-known ps h
  none-known (ref name ∷ ps) h = ground (arith, none-known ps)

  -- Where values are made of references, of openings of calls such as `$(abspath ..)` and of characters
  -- other than the dollar sign, and variables refer only to ones of a lower rank: the expansion of a
  -- value that refers to ranks below `n` ends after at most `n + 1` passes, and what is left refers to
  -- no variable that is defined.
  pub expand_make_variables-ends :
      (n : ℕ) (ps : List Piece)
      → is_ranked defs ≡ true
      → all is_piece ps ≡ true
      → below n ps ≡ true
      → (qs : List Piece) × (expand_make_variables (texts defs) (suc n) (render ps)
          ≡ some (render qs))
        × (known defs qs ≡ false)
  unfolding expand_make_variables
  expand_make_variables-ends zero ps ranked p b =
      let h = none-known ps b in
      rw (replace_all-render defs ps p, h, unknown-substitute ps h) (ps, refl, h)
  expand_make_variables-ends (suc n) ps ranked p b = elim (Bool-cases (known defs ps)) [
    | inl h ↦
        let (p', b') = substitute-below n ps ranked p b in
        rw (replace_all-render defs ps p, h)
          (expand_make_variables-ends n (substitute defs ps) ranked p' b')
    | inr h ↦ rw (replace_all-render defs ps p, h, unknown-substitute ps h) (ps, refl, h)
  ]
