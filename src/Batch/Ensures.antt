-- ===== src/Batch/Ensures.antt =====
-- Rules for where an action of a run leads, by a value or by an exception.
use pms_scanner.Prelude.{
  ◌≡◌, refl, Bool, true, false, if◌then◌else◌, Exec, Result, ok, raised, Fault, pure, lift, reading,
  handling, proceed, ◌>>=◌,
}
use pms_scanner.Batch.Preserves.{Preserves}

-- `m` does not raise.
abbrev pub Never : {S : Type 0} → S → Type 0
Never s = ⊥

module _ {S A : Type 0} where
  abbrev pub After : (A → S → Type 0) → (S → Type 0) → Result A → S → Type 0
  After Q R (ok a) s = Q a s
  After Q R (raised e) s = R s

  -- From a state where `P` holds, `m` returns a value where `Q` does or raises where `R` does.
  pub record Ensures (P : S → Type 0) (Q : A → S → Type 0) (R : S → Type 0) (m : Exec S A)
      : Type 0 where
    pub at : (s : S) → P s → After Q R (m s).0 (m s).1

  pub Ensures-pure : {Q : A → S → Type 0} {R : S → Type 0} (a : A) → Ensures (Q a) Q R (pure a)
  unfolding pure
  Ensures-pure a = record { at = λ s h. h }

  both : (P : S → Type 0) (r : Result A) (s : S) → P s → After (λ a. P) P r s
  both P (ok a) s h = h
  both P (raised e) s h = h

  pub Ensures-lift : {Q : A → S → Type 0} {R : S → Type 0} (a : A) → Ensures (Q a) Q R (lift (ok a))
  unfolding lift
  Ensures-lift a = record { at = λ s h. h }

  -- After what does not happen, anything holds.
  pub Ensures-Never : {Q : A → S → Type 0} {R : S → Type 0} (m : Exec S A) → Ensures Never Q R m
  Ensures-Never m = record { at = λ s h. absurd h }

  -- `m` leads to `R` both ways.
  pub Ensures-moved :
      {P : S → Type 0} (R : S → Type 0) {m : Exec S A}
      → ((s : S) → P s → R (m s).1)
      → Ensures P (λ a. R) R m
  Ensures-moved R k = record { at = λ s h. both R _ _ (k s h) }

  and_after :
      (T : S → Type 0) (Q : A → S → Type 0) (r : Result A) (s : S)
      → After Q Never r s
      → T s
      → After (λ a u. Q a u × T u) Never r s
  and_after T Q (ok a) s h t = (h, t)
  and_after T Q (raised e) s h t = h

  -- Where `m` returns, a second fact about its end.
  pub Ensures-also :
      {P P' : S → Type 0} {Q : A → S → Type 0} (T : S → Type 0) {m : Exec S A}
      → Ensures P Q Never m
      → ((s : S) → P' s → P s)
      → ((s : S) → P' s → T (m s).1)
      → Ensures P' (λ a u. Q a u × T u) Never m
  Ensures-also {Q} T k first second = record {
    at = λ s h. and_after T Q _ _ (k.at s (first s h)) (second s h);
  }

  -- An action that reads the state, if the rest is known from that very state.
  pub Ensures-reading_here :
      {P : S → Type 0} {Q : A → S → Type 0} {R : S → Type 0} (f : S → Exec S A)
      → ((s : S) → P s → Ensures (λ u. u ≡ s) Q R (f s))
      → Ensures P Q R (reading f)
  unfolding reading
  Ensures-reading_here f k = record { at = λ s h. (k s h).at s refl }

  pub Ensures-end :
      {P : S → Type 0} {Q : A → S → Type 0} {m : Exec S A}
      → Ensures P Q Never m
      → (s : S) → P s
      → (a : A) × ((m s).0 ≡ ok a) × Q a (m s).1
  Ensures-end {Q} {m} k s h = returned Q (m s).0 (m s).1 (k.at s h)
    where
      returned :
          (Q : A → S → Type 0) (r : Result A) (u : S)
          → After Q Never r u
          → (a : A) × (r ≡ ok a) × Q a u
      returned Q (ok a) u h = (a, refl, h)
      returned Q (raised e) u h = absurd h

  -- What `m` keeps it leaves both ways.
  pub Ensures-kept : (P : S → Type 0) {m : Exec S A} → Preserves P m → Ensures P (λ a. P) P m
  Ensures-kept P k = Ensures-moved P k.at

  weaker :
      {Q Q' : A → S → Type 0} {R R' : S → Type 0}
      → ((a : A) (s : S) → Q a s → Q' a s)
      → ((s : S) → R s → R' s)
      → (r : Result A) (s : S) → After Q R r s
      → After Q' R' r s
  weaker kq kr (ok a) s h = kq a s h
  weaker kq kr (raised e) s h = kr s h

  pub Ensures-weaken :
      {P P' : S → Type 0} {Q Q' : A → S → Type 0} {R R' : S → Type 0} {m : Exec S A}
      → ((s : S) → P' s → P s)
      → ((a : A) (s : S) → Q a s → Q' a s)
      → ((s : S) → R s → R' s)
      → Ensures P Q R m
      → Ensures P' Q' R' m
  Ensures-weaken kp kq kr k = record { at = λ s h. weaker kq kr _ _ (k.at s (kp s h)) }

  pub Ensures-reading :
      {P : S → Type 0} {Q : A → S → Type 0} {R : S → Type 0} (f : S → Exec S A)
      → ((s : S) → Ensures P Q R (f s))
      → Ensures P Q R (reading f)
  unfolding reading
  Ensures-reading f k = record { at = λ s h. (k s).at s h }

  pub Ensures-if :
      {P : S → Type 0} {Q : A → S → Type 0} {R : S → Type 0} (b : Bool) (m n : Exec S A)
      → Ensures P Q R m
      → Ensures P Q R n
      → Ensures P Q R (if b then m else n)
  Ensures-if true m n km kn = km
  Ensures-if false m n km kn = kn

module _ {S A B : Type 0} {Q : A → S → Type 0} {T : B → S → Type 0} where
  proceed-After :
      {R : S → Type 0} (f : A → Exec S B)
      → ((a : A) → Ensures (Q a) T R (f a))
      → (r : Result A) (s : S) → After Q R r s
      → After T R (proceed f r s).0 (proceed f r s).1
  proceed-After f k (ok a) s h = (k a).at s h
  proceed-After f k (raised e) s h = h

  pub Ensures-bind :
      {P R : S → Type 0} {m : Exec S A} {f : A → Exec S B}
      → Ensures P Q R m
      → ((a : A) → Ensures (Q a) T R (f a))
      → Ensures P T R (m >>= f)
  unfolding ◌>>=◌
  Ensures-bind {f} km kf = record { at = λ s h. proceed-After f kf _ _ (km.at s h) }

  handled-After :
      {R R' : S → Type 0} (f : Result A → Exec S B)
      → ((a : A) → Ensures (Q a) T R' (f (ok a)))
      → ((e : Fault) → Ensures R T R' (f (raised e)))
      → (r : Result A) (s : S) → After Q R r s
      → After T R' (f r s).0 (f r s).1
  handled-After f kq kr (ok a) s h = (kq a).at s h
  handled-After f kq kr (raised e) s h = (kr e).at s h

  pub Ensures-handling :
      {P R R' : S → Type 0} {m : Exec S A} (f : Result A → Exec S B)
      → Ensures P Q R m
      → ((a : A) → Ensures (Q a) T R' (f (ok a)))
      → ((e : Fault) → Ensures R T R' (f (raised e)))
      → Ensures P T R' (handling m f)
  unfolding handling
  Ensures-handling f km kq kr = record { at = λ s h. handled-After f kq kr _ _ (km.at s h) }
