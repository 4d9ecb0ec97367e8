-- ===== src/Lines.antt =====
-- Lines of a text: `strings.Split` and `strings.Join` at newlines, and `strings.TrimRight` of them.
use prometheus_exporter_fram.Prelude.{
  ℕ, Bool, true, false, not, ◌&&◌, List, [], ◌∷◌, ◌++◌, nat_beq, if◌then◌else◌, ◌≡◌, refl, arith,
  all, Bool-cases, inl, inr, nat_beq_iff,
}
use prometheus_exporter_fram.Text.{Text, is_empty}

abbrev pub newline : ℕ
newline = 10

-- a character before the first line
abbrev pub onto_first : ℕ → List Text → List Text
onto_first c [] = (c ∷ []) ∷ []
onto_first c (line ∷ lines) = (c ∷ line) ∷ lines

unfoldable pub split_lines : Text → List Text
split_lines [] = [] ∷ []
split_lines (c ∷ s) =
    let rest = split_lines s in if nat_beq c newline then [] ∷ rest else onto_first c rest

unfoldable pub join_lines : List Text → Text
join_lines [] = []
join_lines (line ∷ []) = line
join_lines (line ∷ next ∷ lines) = line ++ newline ∷ join_lines (next ∷ lines)

unfoldable pub trim_newlines : Text → Text
trim_newlines [] = []
trim_newlines (c ∷ s) =
    let rest = trim_newlines s in if nat_beq c newline && is_empty rest then [] else c ∷ rest

abbrev pub is_line : Text → Bool
is_line = all (λ c. not (nat_beq c newline))

pub all_app : (p : ℕ → Bool) (s t : Text) → all p s ≡ true → all p t ≡ true → all p (s ++ t) ≡ true
all_app p [] t h k = k
all_app p (c ∷ s) t h k = ground (arith, all_app p s t)

pub split_lines-line :
    (line s : Text) → is_line line ≡ true → split_lines (line ++ newline ∷ s) ≡ line ∷ split_lines s
unfolding split_lines
split_lines-line [] s h = refl
split_lines-line (c ∷ line) s h = ground (arith, split_lines-line line s)

onto_first-lines :
    (c : ℕ) (lines : List Text)
    → nat_beq c newline ≡ false
    → all is_line lines ≡ true
    → all is_line (onto_first c lines) ≡ true
onto_first-lines c [] h k = ground arith
onto_first-lines c (line ∷ lines) h k = ground arith

pub split_lines-lines : (s : Text) → all is_line (split_lines s) ≡ true
unfolding split_lines
split_lines-lines [] = refl
split_lines-lines (c ∷ s) = elim (Bool-cases (nat_beq c newline)) [
  | inl h ↦ rw (h) (split_lines-lines s)
  | inr h ↦ rw (h) (onto_first-lines c (split_lines s) h (split_lines-lines s))
]

abbrev is_cons : List Text → Bool
is_cons [] = false
is_cons (line ∷ lines) = true

onto_first-is_cons : (c : ℕ) (lines : List Text) → is_cons (onto_first c lines) ≡ true
onto_first-is_cons c [] = refl
onto_first-is_cons c (line ∷ lines) = refl

split_lines-is_cons : (s : Text) → is_cons (split_lines s) ≡ true
unfolding split_lines
split_lines-is_cons [] = refl
split_lines-is_cons (c ∷ s) = elim (Bool-cases (nat_beq c newline)) [
  | inl h ↦ rw (h) refl
  | inr h ↦ rw (h) (onto_first-is_cons c (split_lines s))
]

join-onto :
    (c : ℕ) (lines : List Text)
    → is_cons lines ≡ true
    → join_lines (onto_first c lines) ≡ c ∷ join_lines lines
unfolding join_lines
join-onto c [] h = absurd (cc)
join-onto c (line ∷ []) h = refl
join-onto c (line ∷ next ∷ lines) h = refl

join-blank :
    (lines : List Text)
    → is_cons lines ≡ true
    → join_lines ([] ∷ lines) ≡ newline ∷ join_lines lines
unfolding join_lines
join-blank [] h = absurd (cc)
join-blank (line ∷ lines) h = refl

join_one : (line : Text) → join_lines (line ∷ []) ≡ line
unfolding join_lines
join_one line = refl

pub join-split : (s : Text) → join_lines (split_lines s) ≡ s
unfolding split_lines
join-split [] = join_one []
join-split (c ∷ s) = elim (Bool-cases (nat_beq c newline)) [
  | inl h ↦
      let e : c ≡ newline = (nat_beq_iff c newline).0 h in
      rw (h, join-blank (split_lines s) (split_lines-is_cons s), join-split s, e) refl
  | inr h ↦ rw (h, join-onto c (split_lines s) (split_lines-is_cons s), join-split s) refl
]
