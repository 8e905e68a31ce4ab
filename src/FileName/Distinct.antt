-- ===== src/FileName/Distinct.antt =====
-- scanner/uploader.py: the names under which the pages of a scan are sent.
use pms_scanner.Prelude.{
  ℕ, zero, suc, ◌+◌, ◌-◌, ◌*◌, ◌/◌, ◌%◌, ◌<◌, ◌≡◌, ◌≢◌, refl, sym, ap, ◌∙◌, inl, inr, Bool, true,
  false, ◌&&◌, Bool-cases, [], ◌∷◌, ◌++◌, Text, codes, leb, ltb, ltb→lt, ltb→ge, arith,
  if◌then◌else◌,
}
use pms_scanner.FileName.{digits_onto, decimal, decimal3, stem, page_file_name}

-- The number that the digits at the start of a text continue.
reading : ℕ → Text → ℕ
reading acc [] = acc
reading acc (c ∷ s) =
    let more = reading (10 * acc + (c - b'0')) s in if leb b'0' c && leb c b'9' then more else acc

reading-digit :
    (acc d : ℕ) (s : Text) → d < 10 → reading acc ((b'0' + d) ∷ s) ≡ reading (10 * acc + d) s
unfolding reading
reading-digit acc d s small = ground arith

reading-digits_onto :
    (fuel n : ℕ) (rest : Text) → n < fuel → reading 0 (digits_onto fuel n rest) ≡ reading n rest
unfolding digits_onto
reading-digits_onto zero n rest enough = absurd (omega arith)
reading-digits_onto (suc fuel) n rest enough = elim (Bool-cases (ltb n 10)) [
  | inl e ↦ rw e (reading-digit 0 n rest (ltb→lt n 10 e) ∙ ap (λ a. reading a rest) (omega arith))
  | inr e ↦ rw e (
      reading-digits_onto fuel (n / 10) ((b'0' + n % 10) ∷ rest) (omega (arith, ltb→ge n 10 e))
      ∙ reading-digit (n / 10) (n % 10) rest (omega arith)
      ∙ ap (λ a. reading a rest) (omega arith))
]

digits_onto-append :
    (fuel n : ℕ) (rest tail : Text)
    → digits_onto fuel n rest ++ tail ≡ digits_onto fuel n (rest ++ tail)
unfolding digits_onto
digits_onto-append zero n rest tail = refl
digits_onto-append (suc fuel) n rest tail = elim (Bool-cases (ltb n 10)) [
  | inl e ↦ rw e refl
  | inr e ↦ rw e (digits_onto-append fuel (n / 10) ((b'0' + n % 10) ∷ rest) tail)
]

abbrev extension : Text
extension = codes ".tiff"

reading-decimal : (n : ℕ) → reading 0 (decimal n ++ extension) ≡ n
unfolding decimal reading
reading-decimal n =
    ap (reading 0) (digits_onto-append (suc n) n [] extension)
    ∙ reading-digits_onto (suc n) n extension (omega arith)

leading_zero : (s : Text) → reading 0 (b'0' ∷ s) ≡ reading 0 s
leading_zero s = reading-digit 0 0 s (omega arith)

-- Zeros in front change no number.
padded :
    (small middling : Bool) (s : Text) (n : ℕ)
    → reading 0 (s ++ extension) ≡ n
    → reading 0 ((if small then b'0' ∷ b'0' ∷ s else if middling then b'0' ∷ s else s) ++ extension)
      ≡ n
padded true middling s n h = leading_zero _ ∙ leading_zero _ ∙ h
padded false true s n h = leading_zero _ ∙ h
padded false false s n h = h

reading-decimal3 : (n : ℕ) → reading 0 (decimal3 n ++ extension) ≡ n
unfolding decimal3
reading-decimal3 n = padded (ltb n 10) (ltb n 100) (decimal n) n (reading-decimal n)

tail_of : Text → Text
tail_of [] = []
tail_of (c ∷ s) = s

append_cancel : (xs : Text) {ys zs : Text} → xs ++ ys ≡ xs ++ zs → ys ≡ zs
unfolding tail_of
append_cancel [] e = e
append_cancel (x ∷ xs) e = append_cancel xs (ap tail_of e)

page_file_name-injective :
    (name : Text) (j k : ℕ) → page_file_name name j ≡ page_file_name name k → j ≡ k
unfolding page_file_name
page_file_name-injective name j k e =
    let same = append_cancel (codes "_p") (append_cancel (stem name) e) in
    sym (reading-decimal3 j) ∙ ap (reading 0) same ∙ reading-decimal3 k

-- Two different pages of a scan are sent under different file names, whatever their numbers.
pub page_file_names_differ :
    (name : Text) (j k : ℕ) → j ≢ k → page_file_name name j ≢ page_file_name name k
page_file_names_differ name j k differ e = differ (page_file_name-injective name j k e)
