-- ===== src/Config/Message/Named.antt =====
-- What the text of a `ConfigError` names.
use mathlib.Core.List.{append-nil}
use pms_scanner.Prelude.{
  ◌≡◌, refl, ap, inl, inr, Bool, true, false, not, ◌&&◌, ◌||◌, Bool-cases, List, [], ◌∷◌, ◌++◌, map,
  Text, codes, nat_eq, ==-refl, if◌then◌else◌, arith, Listed,
}
use pms_scanner.Prelude.Texts.{starts_with, includes}
use pms_scanner.Machine.{is_empty}
use pms_scanner.Config.Message.{FieldError, join, error_place, error_text, error_part, format}

starts_with-append :
    (part s t : Text) → starts_with part s ≡ true → starts_with part (s ++ t) ≡ true
unfolding starts_with
starts_with-append [] s t h = refl
starts_with-append (p ∷ ps) [] t h = cc
starts_with-append (p ∷ ps) (c ∷ s) t h = ground (arith, starts_with-append ps s t)

starts_with_self : (s t : Text) → starts_with s (s ++ t) ≡ true
unfolding starts_with
starts_with_self [] t = refl
starts_with_self (c ∷ s) t = rw (==-refl c) (starts_with_self s t)

includes-start : (part s : Text) → starts_with part s ≡ true → includes part s ≡ true
unfolding includes
includes-start part [] h = h
includes-start part (c ∷ s) h = rw h refl

includes_self : (s t : Text) → includes s (s ++ t) ≡ true
includes_self s t = includes-start s (s ++ t) (starts_with_self s t)

or_true : (a b : Bool) → b ≡ true → (a || b) ≡ true
or_true a b h = ground arith

includes-right : (part s t : Text) → includes part t ≡ true → includes part (s ++ t) ≡ true
unfolding includes
includes-right part [] t h = h
includes-right part (c ∷ s) t h = or_true _ _ (includes-right part s t h)

includes-left : (part s t : Text) → includes part s ≡ true → includes part (s ++ t) ≡ true
unfolding includes
includes-left part [] t h = includes-start part t (starts_with-append part [] t h)
includes-left part (c ∷ s) t h = elim (Bool-cases (starts_with part (c ∷ s))) [
  | inl e ↦ rw (starts_with-append part (c ∷ s) t e) refl
  | inr e ↦ or_true _ _ (includes-left part s t (rw e at h))
]

includes_nil : (s : Text) → includes [] s ≡ true
unfolding includes starts_with
includes_nil [] = refl
includes_nil (c ∷ s) = refl

-- What one of the parts includes, the whole does.
includes-join :
    (x sep : Text) (parts : List Text) (s : Text)
    → Listed s parts
    → includes x s ≡ true
    → includes x (join sep parts) ≡ true
unfolding join
includes-join x sep [] s l h = absurd l
includes-join x sep (t ∷ []) s l h = elim l [ inl same ↦ rw same h | inr rest ↦ absurd rest ]
includes-join x sep (t ∷ u ∷ parts) s l h = elim l [
  | inl same ↦ includes-left x t _ (rw same h)
  | inr rest ↦
      includes-right x t _ (includes-right x sep _ (includes-join x sep (u ∷ parts) s rest h))
]

Listed-map :
    {A : Type 0} (f : A → Text) (x : A) (xs : List A) → Listed x xs → Listed (f x) (map f xs)
Listed-map f x [] l = absurd l
Listed-map f x (y ∷ ys) l = elim l [
  | inl same ↦ inl (ap f same)
  | inr rest ↦ inr (Listed-map f x ys rest)
]

part_place :
    (place text : Text)
    → includes place (
        if not (is_empty place) && not (includes place text)
        then place ++ (codes ": " ++ text)
        else text)
      ≡ true
part_place [] text = includes_nil text
part_place (c ∷ place) text = elim (Bool-cases (includes (c ∷ place) text)) [
  | inl e ↦ rw e e
  | inr e ↦ rw e (includes_self (c ∷ place) (codes ": " ++ text))
]

includes_itself : (s : Text) → includes s s ≡ true
includes_itself s = includes-start s s (rw (append-nil s) at (starts_with_self s []))

part_text :
    (test : Bool) (place text : Text)
    → includes text (if test then place ++ (codes ": " ++ text) else text) ≡ true
part_text true place text =
    includes-right text place _ (includes-right text (codes ": ") text (includes_itself text))
part_text false place text = includes_itself text

-- An empty whole includes only what every text does.
or_else :
    (x parts exc : Text)
    → includes x parts ≡ true
    → includes x (if is_empty parts then exc else parts) ≡ true
or_else x [] exc h = includes-left x [] exc h
or_else x (c ∷ s) exc h = h

-- The text that `_format` makes of the errors that pydantic found holds, of every one of them, the
-- place of the setting and the message without its prefix.
pub format_names_all :
    (errs : List FieldError) (exc : Text) (err : FieldError)
    → Listed err errs
    → (includes (error_place err) (format errs exc) ≡ true)
      × (includes (error_text err) (format errs exc) ≡ true)
unfolding format error_part
format_names_all errs exc err l =
    let here = Listed-map error_part err errs l in
    (
      or_else (error_place err) (join (codes " ; ") (map error_part errs)) exc (
          includes-join (error_place err) (codes " ; ") (map error_part errs) _ here
            (part_place (error_place err) (error_text err))),
      or_else (error_text err) (join (codes " ; ") (map error_part errs)) exc (
          includes-join (error_text err) (codes " ; ") (map error_part errs) _ here
            (part_text _ (error_place err) (error_text err))),
    )
