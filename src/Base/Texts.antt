-- ===== src/Base/Texts.antt =====
-- Rust's `&str` and `String` as their UTF-8 bytes. A byte search for an ASCII character finds
-- what a character search finds, since the bytes of other characters are 128 or more.
use Prim.Native.Nat.{ℕ}
use Prim.Native.Char.{code}
use Prim.Native.String.{String}
use mathlib.Core.Path.{◌≡◌, refl}
use mathlib.Core.Logic.{◌≢◌, ◌↔◌}
use mathlib.Core.Bool.{Bool, true, false, ◌&&◌}
use mathlib.Core.List.{List, [], ◌∷◌, ◌++◌, map}
use native.Mathlib.Omega.{arith}
use codeless_workspace.Base.Tests.{◌==◌, if◌then◌else◌}
use codeless_workspace.Base.Lists.{All}

abbrev pub Text : Type 0
Text = List ℕ

-- A literal. Only ASCII literals are written, so code points are bytes.
abbrev pub codes : String → Text
codes String.[] = []
codes (String.◌∷◌ c s) = code c ∷ codes s

infix 50 ◌=t◌
unfoldable pub ◌=t◌ : Text → Text → Bool
[] =t [] = true
[] =t (y ∷ ys) = false
(x ∷ xs) =t [] = false
(x ∷ xs) =t (y ∷ ys) = let rest = xs =t ys in (x == y) && rest

pub =t_sound : (s t : Text) → (s =t t) ≡ true → s ≡ t
unfolding ◌=t◌
=t_sound [] [] h = refl
=t_sound [] (y ∷ ys) h = cc
=t_sound (x ∷ xs) [] h = cc
=t_sound (x ∷ xs) (y ∷ ys) h = ground (arith, =t_sound xs ys)

pub =t_refl : (s : Text) → (s =t s) ≡ true
unfolding ◌=t◌
=t_refl [] = refl
=t_refl (x ∷ xs) = ground (arith, =t_refl xs)

pub =t_iff : (s t : Text) → ((s =t t) ≡ true) ↔ (s ≡ t)
=t_iff s t = (=t_sound s t, λ e. rw e (=t_refl t))

-- No byte of the text is `c`.
abbrev pub Lacks : ℕ → Text → Type 0
Lacks c = All (λ x. x ≢ c)

push_front : ℕ → List Text → List Text
push_front x [] = (x ∷ []) ∷ []
push_front x (s ∷ ss) = (x ∷ s) ∷ ss

-- `str::split(c)`: at least one piece.
unfoldable pub split : ℕ → Text → List Text
unfolding push_front
split c [] = [] ∷ []
split c (x ∷ xs) = let rest = split c xs in if x == c then [] ∷ rest else push_front x rest

-- `[&str]::join(c)`
unfoldable pub join : ℕ → List Text → Text
join c [] = []
join c (s ∷ []) = s
join c (s ∷ t ∷ ss) = s ++ c ∷ join c (t ∷ ss)

-- `str::replace` of one character by another
unfoldable pub replace : ℕ → ℕ → Text → Text
replace c d = map (λ x. if x == c then d else x)

-- Reading up to a separator.
pub split-append : (c : ℕ) (s t : Text) → Lacks c s → split c (s ++ c ∷ t) ≡ s ∷ split c t
unfolding split
split-append c [] t h = ground arith
split-append c (x ∷ xs) t h = ground (arith, split-append c xs t h.1)

pub split-Lacks : (c : ℕ) (s : Text) → Lacks c s → split c s ≡ s ∷ []
unfolding split
split-Lacks c [] h = refl
split-Lacks c (x ∷ xs) h = ground (arith, split-Lacks c xs h.1)

pub split-ne-nil : (c : ℕ) (s : Text) → split c s ≢ []
unfolding split push_front
split-ne-nil c [] = ground arith
split-ne-nil c (x ∷ xs) = ground (arith, split-ne-nil c xs)

join-cons_cons : (c x : ℕ) (ss : List Text) → ss ≢ [] → join c ([] ∷ ss) ≡ c ∷ join c ss
unfolding join
join-cons_cons c x [] h = absurd (h refl)
join-cons_cons c x (s ∷ ss) h = refl

join-push_front : (c x : ℕ) (ss : List Text) → ss ≢ [] → join c (push_front x ss) ≡ x ∷ join c ss
unfolding join push_front
join-push_front c x [] h = absurd (h refl)
join-push_front c x (s ∷ []) h = refl
join-push_front c x (s ∷ t ∷ ss) h = refl

-- Dots to slashes, split at slashes, joined by dots: the text itself, if it has no slash.
pub join-split-replace : (c d : ℕ) (s : Text) → Lacks d s → join c (split d (replace c d s)) ≡ s
unfolding split replace
join-split-replace c d [] h = unfold join in refl
join-split-replace c d (x ∷ xs) h = ground (
  arith,
  join-split-replace c d xs h.1,
  join-cons_cons c x (split d (replace c d xs)) (split-ne-nil d (replace c d xs)),
  join-push_front c x (split d (replace c d xs)) (split-ne-nil d (replace c d xs)),
)

-- What is split at a character and joined by it again is as before.
pub join-split : (c : ℕ) (s : Text) → join c (split c s) ≡ s
unfolding split
join-split c [] = unfold join in refl
join-split c (x ∷ xs) = ground (
  arith,
  join-split c xs,
  join-cons_cons c x (split c xs) (split-ne-nil c xs),
  join-push_front c x (split c xs) (split-ne-nil c xs),
)
