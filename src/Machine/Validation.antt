-- ===== src/Machine/Validation.antt =====
-- scanner/machine.py: what a validated name is.
use pms_scanner.Prelude.{
  and_true, ℕ, ◌≤◌, ◌≡◌, refl, ◌∙◌, sym, ap, inl, inr, Bool, true, false, ◌&&◌, not, [], ◌∷◌, All,
  Text, codes, arith, text_eq, nat_eq, Bool-cases, contains, length, leb, ◌==◌, if◌then◌else◌,
  leb→le,
}
use pms_scanner.Machine.{
  identify, identity, invalid, reserved_name, no_match, missing_or_blank, MachineIdentity,
  Identified, IdentityError, reserved, strip, rstrip, is_space, is_empty, is_lower_alnum,
  is_name_char, all_name_chars, chop_newline, matches_whole, matches_name_re,
}

trims : identify (codes " mac-mini ") ≡ identity (record { name = codes "mac-mini" })
unfolding identify text_eq nat_eq
trims = refl

rejects : identify (codes "..") ≡ invalid reserved_name
unfolding identify text_eq nat_eq
rejects = refl

rejects_slash : identify (codes "a/b") ≡ invalid no_match
unfolding identify text_eq nat_eq
rejects_slash = refl

-- A name that can stand for a folder: a lower-case letter or a digit, and then at most thirty
-- letters, digits, underscores and dashes.
pub record IsFolderName (s : Text) : Type 0 where
  pub head : ℕ
  pub rest : Text
  pub whole : s ≡ head ∷ rest
  pub head_ok : is_lower_alnum head ≡ true
  pub rest_ok : All (λ c. is_name_char c ≡ true) rest
  pub short : length rest ≤ 30

all_name_chars-All : (s : Text) → all_name_chars s ≡ true → All (λ c. is_name_char c ≡ true) s
unfolding all_name_chars
all_name_chars-All [] h = tt
all_name_chars-All (c ∷ s) h =
    let (first, rest) = and_true (is_name_char c) _ h in (first, all_name_chars-All s rest)

true_ne_false : true ≡ false → ⊥
true_ne_false h = cc

matches_whole-IsFolderName : (s : Text) → matches_whole s ≡ true → IsFolderName s
unfolding matches_whole
matches_whole-IsFolderName [] h = absurd (true_ne_false (sym h))
matches_whole-IsFolderName (c ∷ s) h =
    let (both, few) = and_true (is_lower_alnum c && all_name_chars s) (leb (length s) 30) h in
    let (first, others) = and_true (is_lower_alnum c) (all_name_chars s) both in
    record {
      head = c;
      rest = s;
      whole = refl;
      head_ok = first;
      rest_ok = all_name_chars-All s others;
      short = leb→le _ _ few;
    }

-- No newline ends what `strip` leaves.
newline_is_space : (c : ℕ) → is_space c ≡ false → (c == 10) ≡ false
unfolding is_space nat_eq
newline_is_space c h = ground arith

chop_newline-cons :
    (c : ℕ) (rest : Text)
    → chop_newline rest ≡ rest
    → let s = if is_space c && is_empty rest then [] else c ∷ rest in chop_newline s ≡ s
unfolding chop_newline
chop_newline-cons c [] h = elim (Bool-cases (is_space c)) [
  | inl e ↦ rw e refl
  | inr e ↦ rw (e, newline_is_space c e) refl
]
chop_newline-cons c (d ∷ rest) h = elim (Bool-cases (is_space c)) [
  | inl e ↦ rw e (ap (◌∷◌ c) h)
  | inr e ↦ rw e (ap (◌∷◌ c) h)
]

chop_newline-rstrip : (s : Text) → chop_newline (rstrip s) ≡ rstrip s
unfolding chop_newline rstrip
chop_newline-rstrip [] = refl
chop_newline-rstrip (c ∷ s) = chop_newline-cons c (rstrip s) (chop_newline-rstrip s)

matches_name_re-strip : (raw : Text) → matches_name_re (strip raw) ≡ matches_whole (strip raw)
unfolding matches_name_re strip
matches_name_re-strip raw = rw chop_newline-rstrip (ground arith)

identity_name : Identified → Text
identity_name (identity m) = m.name
identity_name (invalid e) = []

invalid_not : (e : IdentityError) (m : MachineIdentity) → invalid e ≡ identity m → ⊥
invalid_not e m h = cc

-- The three tests, and the name that has passed them.
passed :
    (blank taken matched : Bool) (s : Text) (m : MachineIdentity)
    → (if blank
        then invalid missing_or_blank
        else if taken
        then invalid reserved_name
        else if not matched
        then invalid no_match
        else identity (record { name = s }))
      ≡ identity m
    → (m.name ≡ s) × (taken ≡ false) × (matched ≡ true)
unfolding identity_name
passed true taken matched s m h = absurd (invalid_not _ m h)
passed false true matched s m h = absurd (invalid_not _ m h)
passed false false false s m h = absurd (invalid_not _ m h)
passed false false true s m h = (sym (ap identity_name h), refl, refl)

-- A name that `MachineIdentity` accepts is the given one without the spaces around it, and it can
-- stand for a folder: it matches `_NAME_RE` as a whole, without the final newline that `$` would
-- allow, and is none of the reserved names.
pub identify_valid :
    (raw : Text) (m : MachineIdentity)
    → identify raw ≡ identity m
    → (m.name ≡ strip raw) × IsFolderName m.name × (contains reserved m.name ≡ false)
unfolding identify
identify_valid raw m h =
    let (same, free, matched) =
      passed (is_empty (strip raw)) (contains reserved (strip raw)) (matches_name_re (strip raw))
        (strip raw) m h in
    rw same (
      refl,
      matches_whole-IsFolderName (strip raw) (sym (matches_name_re-strip raw) ∙ matched),
      free,
    )
