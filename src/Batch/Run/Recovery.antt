-- ===== src/Batch/Run/Recovery.antt =====
-- `recover_stranded`: the name of a returned file, and what the scanner makes of it.
use pms_scanner.Prelude.{
  ℕ, ◌<◌, ◌⊎◌, ◌≡◌, refl, ◌≢◌, ap, inl, inr, true, false, none, some, [], ◌∷◌, ◌++◌, All, Text,
  codes, contains, arith, ==-false, ◌||◌, if◌then◌else◌, Bool-cases, nat_eq, text_eq, ok,
}
use pms_scanner.FileName.{split_last_dot, suffix, lower, is_supported, supported_exts}
use pms_scanner.Machine.{is_empty}
use pms_scanner.Tree.{Tree, at, watch, exists}
use pms_scanner.Batch.World.{Outside, Runner}
use pms_scanner.Batch.Run.{recovered_name, examine}

-- No dot stands in the text.
abbrev pub DotFree : Text → Type 0
DotFree s = All (λ c. c ≢ b'.') s

split_last_dot-DotFree : (s : Text) → DotFree s → split_last_dot s ≡ none
unfolding split_last_dot
split_last_dot-DotFree [] h = refl
split_last_dot-DotFree (c ∷ s) h = rw (split_last_dot-DotFree s h.1, ==-false c b'.' h.0) refl

-- The suffix begins at the last dot.
split_last_dot-last :
    (name s : Text) → DotFree s → split_last_dot (name ++ b'.' ∷ s) ≡ some (name, s)
unfolding split_last_dot nat_eq
split_last_dot-last [] s h = rw (split_last_dot-DotFree s h) refl
split_last_dot-last (c ∷ name) s h = rw (split_last_dot-last name s h) refl

-- A suffix that starts with an `r`, and the missing suffix, are not supported.
no_support : contains supported_exts [] ≡ false
no_support =
    rw
      (
        ==-false {A = Text} [] (codes ".pdf") (λ e. cc),
        ==-false {A = Text} [] (codes ".tif") (λ e. cc),
        ==-false {A = Text} [] (codes ".tiff") (λ e. cc),
      )
      refl

second : Text → ℕ
second [] = 0
second (c ∷ []) = 0
second (c ∷ d ∷ s) = d

r_support : (s : Text) → contains supported_exts (b'.' ∷ b'r' ∷ s) ≡ false
unfolding second
r_support s =
    rw
      (
        ==-false (b'.' ∷ b'r' ∷ s) (codes ".pdf") (λ e. omega (arith, ap second e)),
        ==-false (b'.' ∷ b'r' ∷ s) (codes ".tif") (λ e. omega (arith, ap second e)),
        ==-false (b'.' ∷ b'r' ∷ s) (codes ".tiff") (λ e. omega (arith, ap second e)),
      )
      refl

suffix-last :
    (name s : Text)
    → DotFree s
    → suffix (name ++ b'.' ∷ s) ≡ (if is_empty name || is_empty s then [] else b'.' ∷ s)
unfolding suffix
suffix-last name s h = rw (split_last_dot-last name s h, suffix) refl

no_dot : (c : ℕ) → b'.' < c ⊎ c < b'.' → c ≢ b'.'
no_dot c (inl h) e = omega arith
no_dot c (inr h) e = omega arith

recovered-DotFree : (stamp : Text) → DotFree stamp → DotFree (codes "recovered-" ++ stamp)
recovered-DotFree stamp h = (
  no_dot _ (ground arith),
  (
    no_dot _ (ground arith),
    (
      no_dot _ (ground arith),
      (
        no_dot _ (ground arith),
        (
          no_dot _ (ground arith),
          (
            no_dot _ (ground arith),
            (
              no_dot _ (ground arith),
              (no_dot _ (ground arith), (no_dot _ (ground arith), (no_dot _ (ground arith), h))),
            ),
          ),
        ),
      ),
    ),
  ),
)

pub unsupported :
    (name stamp : Text)
    → DotFree stamp
    → is_supported (name ++ (codes ".recovered-" ++ stamp)) ≡ false
unfolding is_supported lower
unsupported name stamp h =
    let e = suffix-last name (codes "recovered-" ++ stamp) (recovered-DotFree stamp h) in
    elim (Bool-cases (is_empty name)) [
      | inl k ↦ rw (e, k) no_support
      | inr k ↦ rw (e, k) (r_support _)
    ]

-- A stranded file that returns to a watch folder where its name is taken gets a name, for a stamp
-- without a dot, that no later pass settles on: `_find_settled` passes over it whatever the time.
pub recovered_file_is_ignored :
    (o : Outside) (r : Runner) (clock time : ℕ) (name : Text) (t t' : Tree)
    → DotFree (o.stamp clock)
    → exists (at watch name) t ≡ true
    → examine o r time (recovered_name o r clock name t) t' ≡ (ok false, t')
unfolding examine
recovered_file_is_ignored o r clock time name t t' h taken =
    rw (taken, unsupported name (o.stamp clock) h) (ground arith)
