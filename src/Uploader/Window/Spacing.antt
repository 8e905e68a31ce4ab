-- ===== src/Uploader/Window/Spacing.antt =====
-- No window of 60 seconds holds more than 60 grants of the rate limiter.
use pms_scanner.Prelude.{
  ℕ, ◌+◌, ◌≤◌, ◌<◌, ◌≡◌, refl, inl, inr, some, List, [], ◌∷◌, ◌++◌, All, All-append, All-map,
  Bool-cases, leb→le, ltb→lt, arith, ltb, leb, length, length-append, get_elem?,
  get_elem?-append_left, get_elem?-append_last, get_elem?_bound, All-get_elem?, sym, ap, ◌∙◌,
}
use native.Mathlib.Decide.{dec_lt}
use mathlib.Core.Path.{subst}
use mathlib.Core.Option.{none-ne-some, some-injective}
use mathlib.Core.List.{append_assoc}
use pms_scanner.Uploader.Window.{
  rate_limit_max, rate_limit_window, drop_expired, Acquire, granted, wait, try_acquire,
}

-- The times of all grants so far, with the limiter's history and the last reading of the clock.
pub record Log : Type 0 where
  pub grants : List ℕ
  pub history : List ℕ

after : ℕ → Log → Acquire → Log
after now l (granted history) = record { grants = l.grants ++ now ∷ []; history = history }
after now l (wait ms history) = record l { history = history }

-- The rounds of all threads, at these readings of the clock: each round is taken under the lock.
pub rounds : List ℕ → Log → Log
rounds [] l = l
rounds (now ∷ readings) l = rounds readings (after now l (try_acquire now l.history))

-- The readings of a monotonic clock, none before `since`.
abbrev pub Ascending : ℕ → List ℕ → Type 0
Ascending since [] = Unit
Ascending since (now ∷ readings) = (since ≤ now) × Ascending now readings

-- A grant and the sixtieth grant after it are a whole window apart.
abbrev pub Spaced : List ℕ → Type 0
Spaced grants =
    (i a b : ℕ)
    → get_elem? grants i ≡ some a
    → get_elem? grants (i + rate_limit_max) ≡ some b
    → a + rate_limit_window ≤ b

abbrev IsOld : ℕ → ℕ → Type 0
IsOld now t = t + rate_limit_window ≤ now

-- What is dropped is old, and what is kept follows it.
pub drop_expired-split :
    (now : ℕ) (history : List ℕ)
    → (old : List ℕ) × (old ++ drop_expired now history ≡ history) × All (IsOld now) old
unfolding drop_expired
drop_expired-split now [] = ([], refl, tt)
drop_expired-split now (t ∷ history) = elim (Bool-cases (leb (t + rate_limit_window) now)) [
  | inl e ↦
      let (old, same, h) = drop_expired-split now history in
      (t ∷ old, rw e (ap (◌∷◌ t) same), (leb→le _ _ e, h))
  | inr e ↦ ([], rw e, tt)
]

-- The history is the end of the log, and what stands before it in the log is old.
pub record IsLogged (last : ℕ) (l : Log) : Type 0 where
  pub old : List ℕ
  pub split : old ++ l.history ≡ l.grants
  pub aged : All (IsOld last) old
  pub spaced : Spaced l.grants

-- One more grant keeps the spacing, if fewer than the maximum are not old.
Spaced-append :
    (now : ℕ) (old kept : List ℕ)
    → All (IsOld now) old
    → length kept < rate_limit_max
    → Spaced (old ++ kept)
    → Spaced ((old ++ kept) ++ now ∷ [])
Spaced-append now old kept aged few spaced i a b ha hb =
    elim (dec_lt (i + rate_limit_max) (length (old ++ kept))) [
      | yes inside ↦
          spaced i a b (sym (get_elem?-append_left (old ++ kept) (now ∷ []) i (omega arith)) ∙ ha)
            (sym (get_elem?-append_left (old ++ kept) (now ∷ []) (i + rate_limit_max) inside) ∙ hb)
      | no outside ↦ at_end (omega (arith, in_range, length-append (old ++ kept) (now ∷ [])))
    ]
  where
    in_range : i + rate_limit_max < length ((old ++ kept) ++ now ∷ [])
    in_range = get_elem?_bound _ (i + rate_limit_max) b hb

    at_end : i + rate_limit_max ≡ length (old ++ kept) → a + rate_limit_window ≤ b
    at_end e = rw (some-injective now b now_is_b) at old_a
      where
        now_is_b : some now ≡ some b
        now_is_b =
            sym (get_elem?-append_last (old ++ kept) now)
            ∙ (ap (get_elem? ((old ++ kept) ++ now ∷ [])) (sym e) ∙ hb)

        in_old : i < length old
        in_old = omega (arith, length-append old kept)

        old_a : a + rate_limit_window ≤ now
        old_a = All-get_elem? (IsOld now) old i a aged (
            sym (get_elem?-append_left old kept i in_old)
            ∙ (sym (
                  get_elem?-append_left (old ++ kept) (now ∷ []) i
                    (omega (arith, length-append old kept)))
                ∙ ha))

after-IsLogged :
    (last now : ℕ) (l : Log)
    → last ≤ now
    → IsLogged last l
    → IsLogged now (after now l (try_acquire now l.history))
unfolding after try_acquire
after-IsLogged last now l later inv =
    let (dropped, same, ages) = drop_expired-split now l.history in
    let kept = drop_expired now l.history in
    let old = inv.old ++ dropped in
    let whole : old ++ kept ≡ l.grants =
      append_assoc inv.old dropped kept ∙ (ap (λ h. inv.old ++ h) same ∙ inv.split) in
    let aged : All (IsOld now) old =
      All-append (IsOld now) inv.old dropped
        (All-map (IsOld last) (IsOld now) (λ t h. omega arith) inv.old inv.aged) ages in
    elim (Bool-cases (ltb (length kept) rate_limit_max)) [
      | inl few ↦ rw few (record {
        old = old;
        split = sym (append_assoc old kept (now ∷ [])) ∙ ap (λ g. g ++ now ∷ []) whole;
        aged = aged;
        spaced =
            subst (λ g. Spaced (g ++ now ∷ [])) whole
              (Spaced-append now old kept aged (ltb→lt _ _ few)
                (subst Spaced (sym whole) inv.spaced));
      })
      | inr full ↦ rw full (record { old = old; split = whole; aged = aged; spaced = inv.spaced })
    ]

rounds-IsLogged :
    (readings : List ℕ) (last : ℕ) (l : Log)
    → Ascending last readings
    → IsLogged last l
    → Spaced (rounds readings l).grants
unfolding rounds
rounds-IsLogged [] last l h inv = inv.spaced
rounds-IsLogged (now ∷ readings) last l h inv =
    rounds-IsLogged readings now _ h.1 (after-IsLogged last now l h.0 inv)

abbrev pub nothing_yet : Log
nothing_yet = record { grants = []; history = [] }

-- Whatever threads ask the limiter, at whatever readings of a clock that never goes back, each
-- grant and the sixtieth grant after it are at least 60 seconds apart: no window of 60 seconds
-- holds more than 60 grants.
pub rate_limit :
    (readings : List ℕ) → Ascending 0 readings → Spaced (rounds readings nothing_yet).grants
rate_limit readings h =
    rounds-IsLogged readings 0 nothing_yet h
      (record { old = []; split = refl; aged = tt; spaced = λ i a b e. absurd (none-ne-some a e) })
