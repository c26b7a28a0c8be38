-- ===== src/Reservations/Roots/Overlap.antt =====
-- What the overlap of two paths in the SQL of `require_resources` is, by the parts of the paths.
use laneq.Common.{
  ℕ, ◌≡◌, refl, ◌∙◌, List, [], ◌∷◌, ◌++◌, Bool, true, false, ◌&&◌, ◌||◌, arith, Bool-cases, inl,
  inr, ◌==◌,
}
use laneq.Text.{Text, codes, text_eq}
use laneq.Reservations.{split_path}
use laneq.Reservations.Roots.{is_prefix, overlaps}

-- The parts of one path begin those of the other.
abbrev pub begins : List Text → List Text → Bool
begins [] qs = true
begins (p ∷ ps) [] = false
begins (p ∷ ps) (q ∷ qs) = text_eq p q && begins ps qs

text_eq_cons : (c d : ℕ) (s t : Text) → text_eq (c ∷ s) (d ∷ t) ≡ ((c == d) && text_eq s t)
text_eq_cons c d s t = ground arith

-- A path has a first part.
split_path_cons : (p : Text) → (x : Text) × (xs : List Text) × (split_path p ≡ x ∷ xs)
unfolding split_path
split_path_cons [] = ([], [], refl)
split_path_cons (c ∷ cs) = elim (Bool-cases (c == 47)) [
  | inl e ↦ ([], split_path cs, rw e refl)
  | inr e ↦ let (x, xs, h) = split_path_cons cs in (c ∷ x, xs, rw e (rw h refl))
]

prefix_none : (p : Text) → is_prefix (p ++ 47 ∷ []) [] ≡ false
prefix_none [] = refl
prefix_none (c ∷ cs) = refl

begins_split :
    (p q : Text) → is_prefix (p ++ 47 ∷ []) (q ++ 47 ∷ []) ≡ begins (split_path p) (split_path q)
unfolding split_path
begins_split [] [] = ground arith
begins_split [] (d ∷ ds) = let (y, ys, h) = split_path_cons ds in rw h (ground arith)
begins_split (c ∷ cs) [] =
    let (x, xs, h) = split_path_cons cs in rw (h, prefix_none cs) (ground arith)
begins_split (c ∷ cs) (d ∷ ds) =
    let (x, xs, g) = split_path_cons cs in
    let (y, ys, h) = split_path_cons ds in
    let rest : is_prefix (cs ++ 47 ∷ []) (ds ++ 47 ∷ []) ≡ begins (x ∷ xs) (y ∷ ys) =
      begins_split cs ds ∙ rw (g, h) refl in
    rw (g, h, rest) (ground (arith, text_eq_cons c d x y))

-- Two paths overlap in the SQL exactly if one of them is "." or its parts begin the parts of the
-- other: "src" overlaps "src/a", and not "src2".
pub overlaps-begins :
    (p q : Text)
    → overlaps p q ≡ (
        text_eq p (codes ".")
        || text_eq q (codes ".")
        || begins (split_path p) (split_path q)
        || begins (split_path q) (split_path p))
unfolding overlaps
overlaps-begins p q = rw (begins_split p q, begins_split q p) refl
