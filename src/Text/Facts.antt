-- ===== src/Text/Facts.antt =====
-- Laws of trimming and of prefixes.
use prometheus_exporter_fram.Prelude.{
  ◌≡◌, refl, ap, ◌∙◌, Bool, true, false, not, [], ◌∷◌, ◌++◌, any, arith, Bool-cases, inl, inr,
}
use prometheus_exporter_fram.Text.Base.{
  Text, is_space, trim_left, trim_right, trim_space, has_prefix, contains,
}

-- The first code point, if there is one, is no space.
pub starts_visible : Text → Bool
starts_visible [] = true
starts_visible (c ∷ s) = not (is_space c)

trim_left-starts_visible : (s : Text) → starts_visible (trim_left s) ≡ true
unfolding trim_left starts_visible
trim_left-starts_visible [] = refl
trim_left-starts_visible (c ∷ s) = ground (arith, trim_left-starts_visible s)

trim_left_visible : (s : Text) → starts_visible s ≡ true → trim_left s ≡ s
unfolding trim_left starts_visible
trim_left_visible [] h = refl
trim_left_visible (c ∷ s) h = ground arith

trim_right_idem : (s : Text) → trim_right (trim_right s) ≡ trim_right s
unfolding trim_right
trim_right_idem [] = refl
trim_right_idem (c ∷ s) = ground (arith, trim_right_idem s)

starts_visible-trim_right :
    (s : Text) → starts_visible s ≡ true → starts_visible (trim_right s) ≡ true
unfolding trim_right starts_visible
starts_visible-trim_right [] h = refl
starts_visible-trim_right (c ∷ s) h = ground arith

pub trim_space_idem : (s : Text) → trim_space (trim_space s) ≡ trim_space s
unfolding trim_space
trim_space_idem s =
    ap trim_right (
      trim_left_visible (trim_right (trim_left s))
        (starts_visible-trim_right (trim_left s) (trim_left-starts_visible s)))
    ∙ trim_right_idem (trim_left s)

trim_right_visible : (s : Text) → any is_space s ≡ false → trim_right s ≡ s
unfolding trim_right
trim_right_visible [] h = refl
trim_right_visible (c ∷ s) h = ground (arith, trim_right_visible s)

-- A text without spaces is trimmed already.
pub trim_space_visible : (s : Text) → any is_space s ≡ false → trim_space s ≡ s
unfolding trim_space starts_visible
trim_space_visible [] h = unfold trim_left trim_right in refl
trim_space_visible (c ∷ s) h =
    ap trim_right (trim_left_visible (c ∷ s) (ground arith)) ∙ trim_right_visible (c ∷ s) h

pub has_prefix-append : (p rest : Text) → has_prefix (p ++ rest) p ≡ true
unfolding has_prefix
has_prefix-append [] rest = refl
has_prefix-append (c ∷ p) rest = ground (arith, has_prefix-append p rest)

pub has_prefix-split : (s p : Text) → has_prefix s p ≡ true → (rest : Text) × (s ≡ p ++ rest)
unfolding has_prefix
has_prefix-split s [] h = (s, refl)
has_prefix-split [] (d ∷ p) h = cc
has_prefix-split (c ∷ s) (d ∷ p) h =
    let (rest, e) = has_prefix-split s p (ground arith) in (rest, ground arith)

-- `Contains` finds exactly the texts that stand in it.
pub contains-append : (pre sub post : Text) → contains (pre ++ (sub ++ post)) sub ≡ true
unfolding contains
contains-append [] [] [] = refl
contains-append [] [] (c ∷ post) = refl
contains-append [] (d ∷ sub) post = ground (arith, has_prefix-append sub post)
contains-append (c ∷ pre) sub post = ground (arith, contains-append pre sub post)

pub contains-split :
    (s sub : Text)
    → contains s sub ≡ true
    → (pre : Text) × (post : Text) × (s ≡ pre ++ (sub ++ post))
unfolding contains
contains-split [] [] h = ([], [], refl)
contains-split [] (d ∷ sub) h = cc
contains-split (c ∷ s) sub h = elim (Bool-cases (has_prefix (c ∷ s) sub)) [
  | inl p ↦ let (rest, e) = has_prefix-split (c ∷ s) sub p in ([], rest, e)
  | inr p ↦
      let (pre, post, e) = contains-split s sub (ground arith) in (c ∷ pre, post, ap (◌∷◌ c) e)
]
