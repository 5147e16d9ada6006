-- ===== src/Prelude/Search.antt =====
-- The searches of the C library in a string: the text before the place that is found, and the rest.
use Prim.Native.Nat.{ℕ}
use mathlib.Core.Bool.{Bool, true, false}
use mathlib.Core.Option.{Option, none, some}
use mathlib.Core.List.{[], ◌∷◌, ◌++◌}
use mathlib.Core.Path.{◌≡◌, refl}
use mathlib.Core.Logic.{◌≢◌}
use native.Mathlib.Omega.{arith}
use cqjs.Prelude.Tests.{◌==◌, if◌then◌else◌}
use cqjs.Prelude.Lists.{All}
use cqjs.Prelude.Text.{Bytes}

-- The text before the first character that passes the test, and the text from there on.
unfoldable pub until : (ℕ → Bool) → Bytes → Bytes × Bytes
until p [] = ([], [])
until p (c ∷ s) = let rest = until p s in if p c then ([], c ∷ s) else (c ∷ rest.0, rest.1)

-- `strchr(s, c)`: the text before the first `c` and, if there is one, the text behind it.
unfoldable pub cut : ℕ → Bytes → Bytes × Option Bytes
cut c [] = ([], none)
cut c (x ∷ s) = let rest = cut c s in if x == c then ([], some s) else (x ∷ rest.0, rest.1)

abbrev pub longer : ℕ → Option (Bytes × Bytes) → Option (Bytes × Bytes)
longer x none = none
longer x (some (before, behind)) = some (x ∷ before, behind)

abbrev split_here : ℕ → ℕ → Bytes → Option (Bytes × Bytes) → Option (Bytes × Bytes)
split_here c x s (some found) = longer x (some found)
split_here c x s none = if x == c then some ([], s) else none

-- `strrchr(s, c)`: the texts before and behind the last `c`.
unfoldable pub cut_last : ℕ → Bytes → Option (Bytes × Bytes)
cut_last c [] = none
cut_last c (x ∷ s) = split_here c x s (cut_last c s)

-- The rest of a text that starts with the given one.
unfoldable pub strip_prefix : Bytes → Bytes → Option Bytes
strip_prefix [] s = some s
strip_prefix (c ∷ cs) [] = none
strip_prefix (c ∷ cs) (x ∷ s) = if x == c then strip_prefix cs s else none

abbrev found_or : Option Bytes → Option (Bytes × Bytes) → Option (Bytes × Bytes)
found_or (some rest) later = some ([], rest)
found_or none later = later

-- `strstr(s, word)`: the texts before and behind the first place of a word that is not empty.
unfoldable pub cut_word : Bytes → Bytes → Option (Bytes × Bytes)
unfolding strip_prefix
cut_word word [] = none
cut_word word (x ∷ s) = found_or (strip_prefix word (x ∷ s)) (longer x (cut_word word s))

-- The text is empty, or its first character passes the test.
abbrev pub Stops : (ℕ → Bool) → Bytes → Type 0
Stops p [] = Unit
Stops p (c ∷ s) = p c ≡ true

pub until-append :
    (p : ℕ → Bool) (xs rest : Bytes)
    → All (λ c. p c ≡ false) xs
    → Stops p rest
    → until p (xs ++ rest) ≡ (xs, rest)
unfolding until
until-append p [] [] h stops = refl
until-append p [] (c ∷ rest) h stops = rw stops
until-append p (x ∷ xs) rest (hx, h) stops = rw (hx, until-append p xs rest h stops)

pub cut-append :
    (c : ℕ) (xs rest : Bytes) → All (λ x. x ≢ c) xs → cut c (xs ++ (c ∷ rest)) ≡ (xs, some rest)
unfolding cut
cut-append c [] rest h = ground arith
cut-append c (x ∷ xs) rest (hx, h) = rw (cut-append c xs rest h) (ground (arith, hx))

pub cut-none : (c : ℕ) (xs : Bytes) → All (λ x. x ≢ c) xs → cut c xs ≡ (xs, none)
unfolding cut
cut-none c [] h = refl
cut-none c (x ∷ xs) (hx, h) = rw (cut-none c xs h) (ground (arith, hx))

pub cut_last-none : (c : ℕ) (xs : Bytes) → All (λ x. x ≢ c) xs → cut_last c xs ≡ none
unfolding cut_last
cut_last-none c [] h = refl
cut_last-none c (x ∷ xs) (hx, h) = rw (cut_last-none c xs h) (ground (arith, hx))

pub cut_last-append :
    (c : ℕ) (xs ys : Bytes) → All (λ x. x ≢ c) ys → cut_last c (xs ++ (c ∷ ys)) ≡ some (xs, ys)
unfolding cut_last
cut_last-append c [] ys h = rw (cut_last-none c ys h) (ground arith)
cut_last-append c (x ∷ xs) ys h = rw (cut_last-append c xs ys h) refl

-- A word that starts with a character that the text in front does not hold.
pub cut_word-append :
    (c : ℕ) (word xs rest : Bytes)
    → All (λ x. x ≢ c) xs
    → strip_prefix word (word ++ rest) ≡ some rest
    → cut_word (c ∷ word) (xs ++ (c ∷ (word ++ rest))) ≡ some (xs, rest)
unfolding cut_word
cut_word-append c word [] rest h starts = unfold strip_prefix in rw starts (ground arith)
cut_word-append c word (x ∷ xs) rest (hx, h) starts =
    rw (cut_word-append c word xs rest h starts) (unfold strip_prefix in ground (arith, hx))

pub cut_word-none : (c : ℕ) (word xs : Bytes) → All (λ x. x ≢ c) xs → cut_word (c ∷ word) xs ≡ none
unfolding cut_word
cut_word-none c word [] h = refl
cut_word-none c word (x ∷ xs) (hx, h) =
    rw (cut_word-none c word xs h) (unfold strip_prefix in ground (arith, hx))
