-- ===== src/Text/Trim.antt =====
-- `String.prototype.trim`, and that what it returns is fixed by it.
use nitip_cuy.Prelude.{ℕ, ◌≡◌, refl, inl, inr, false, List, [], ◌∷◌, if◌then◌else◌, Bool-cases}
use nitip_cuy.Text.Chars.{is_space}

unfoldable pub trim_start : List ℕ → List ℕ
trim_start [] = []
trim_start (c ∷ s) = let rest = trim_start s in if is_space c then rest else c ∷ s

-- One unit before text that has been trimmed at its end.
unfoldable pub before : ℕ → List ℕ → List ℕ
before c [] = if is_space c then [] else c ∷ []
before c (d ∷ t) = c ∷ d ∷ t

unfoldable pub trim_end : List ℕ → List ℕ
unfolding before
trim_end [] = []
trim_end (c ∷ s) = before c (trim_end s)

unfoldable pub trim : List ℕ → List ℕ
unfolding trim_start trim_end
trim s = trim_end (trim_start s)

-- The first unit, if there is one, is no white space.
abbrev pub StartsFirm : List ℕ → Type 0
StartsFirm [] = Unit
StartsFirm (c ∷ s) = is_space c ≡ false

trim_start-StartsFirm : (s : List ℕ) → StartsFirm (trim_start s)
unfolding trim_start
trim_start-StartsFirm [] = tt
trim_start-StartsFirm (c ∷ s) = elim (Bool-cases (is_space c)) [
  | inl e ↦ rw e (trim_start-StartsFirm s)
  | inr e ↦ rw e e
]

before-StartsFirm : (c : ℕ) (t : List ℕ) → is_space c ≡ false → StartsFirm (before c t)
unfolding before
before-StartsFirm c [] e = rw e e
before-StartsFirm c (d ∷ t) e = e

trim_end-StartsFirm : (s : List ℕ) → StartsFirm s → StartsFirm (trim_end s)
unfolding trim_end
trim_end-StartsFirm [] h = tt
trim_end-StartsFirm (c ∷ s) h = before-StartsFirm c (trim_end s) h

trim_start_firm : (s : List ℕ) → StartsFirm s → trim_start s ≡ s
unfolding trim_start
trim_start_firm [] h = refl
trim_start_firm (c ∷ s) h = rw h

trim_end-before : (c : ℕ) (t : List ℕ) → trim_end t ≡ t → trim_end (before c t) ≡ before c t
unfolding trim_end before
trim_end-before c [] h = elim (Bool-cases (is_space c)) [ inl e ↦ rw e | inr e ↦ rw (e, e) ]
trim_end-before c (d ∷ t) h = rw h

trim_end_idem : (s : List ℕ) → trim_end (trim_end s) ≡ trim_end s
unfolding trim_end
trim_end_idem [] = refl
trim_end_idem (c ∷ s) = trim_end-before c (trim_end s) (trim_end_idem s)

-- Trimming twice is trimming once.
pub trim_idem : (s : List ℕ) → trim (trim s) ≡ trim s
unfolding trim
trim_idem s =
    rw
      (trim_start_firm (trim_end (trim_start s))
        (trim_end-StartsFirm (trim_start s) (trim_start-StartsFirm s)))
      (trim_end_idem (trim_start s))
