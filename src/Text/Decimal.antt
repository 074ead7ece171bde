-- ===== src/Text/Decimal.antt =====
-- `n.toString()` and `padStart`, for the natural numbers that the program renders.
use nitip_cuy.Prelude.{
  ℕ, zero, suc, ◌+◌, ◌-◌, ◌*◌, ◌/◌, ◌%◌, ◌<◌, ◌≡◌, refl, ◌∙◌, sym, ap, [], ◌∷◌, ◌++◌, ◌==◌, arith,
  true, false, length,
}
use nitip_cuy.Text.{Text}

-- The digits of `n` before those of `rest`; a fuel above `n` is enough (`value-digits`).
digits : (fuel n : ℕ) → Text → Text
digits zero n rest = rest
digits (suc fuel) n rest = elim (n / 10 == 0) [
  | true ↦ (b'0' + n % 10) ∷ rest
  | false ↦ digits fuel (n / 10) ((b'0' + n % 10) ∷ rest)
]

unfoldable pub decimal_text : ℕ → Text
unfolding digits
decimal_text n = digits (suc n) n []

zeros : ℕ → Text
zeros zero = []
zeros (suc n) = b'0' ∷ zeros n

-- `text.padStart(width, "0")`
unfoldable pub pad_start : ℕ → Text → Text
unfolding zeros
pad_start width text = zeros (width - length text) ++ text

-- The number that a text of digits stands for, after those whose number is `n`.
pub value : ℕ → Text → ℕ
value n [] = n
value n (c ∷ s) = value (n * 10 + (c - b'0')) s

value-digits : (fuel n : ℕ) (rest : Text) → n < fuel → value 0 (digits fuel n rest) ≡ value n rest
unfolding digits value
value-digits zero n rest h = absurd (omega arith)
value-digits (suc fuel) n rest h =
    ground (arith, value-digits fuel (n / 10) ((b'0' + n % 10) ∷ rest))

value-zeros : (k : ℕ) (s : Text) → value 0 (zeros k ++ s) ≡ value 0 s
unfolding zeros value
value-zeros zero s = refl
value-zeros (suc k) s = value-zeros k s

-- A padded number is read back as it was.
pub value-pad_start : (width n : ℕ) → value 0 (pad_start width (decimal_text n)) ≡ n
unfolding pad_start decimal_text value
value-pad_start width n =
    value-zeros (width - length (decimal_text n)) (decimal_text n)
    ∙ value-digits (suc n) n [] (omega arith)

pub pad_start-injective :
    (width m n : ℕ) → pad_start width (decimal_text m) ≡ pad_start width (decimal_text n) → m ≡ n
pad_start-injective width m n h =
    sym (value-pad_start width m) ∙ ap (value 0) h ∙ value-pad_start width n

runs : pad_start 4 (decimal_text 42) ≡ b'0' ∷ b'0' ∷ b'4' ∷ b'2' ∷ []
unfolding pad_start decimal_text digits zeros
runs = refl
