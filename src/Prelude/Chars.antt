-- ===== src/Prelude/Chars.antt =====
-- Python's `str`, as the list of its code points: literals, comparison, `in`, `strip`, slices.
use Prim.Native.Nat.{ℕ, ◌≤◌}
use Prim.Native.Char.{code}
use Prim.Native.String.{String}
use mathlib.Core.Path.{◌≡◌, refl, ap, ◌∙◌}
use mathlib.Core.Logic.{◌↔◌}
use mathlib.Core.Bool.{Bool, true, false, ◌&&◌, ◌||◌}
use mathlib.Core.List.{List, [], ◌∷◌, reverse, reverse_aux, reverse-reverse}
use native.Mathlib.Omega.{arith}
use industrial_aiops_energy.Prelude.Tests.{leb, ◌==◌, if◌then◌else◌}
use industrial_aiops_energy.Prelude.Lists.{All}

abbrev pub Text : Type 0
Text = List ℕ

-- A literal. `String` has its own `[]` and `∷`.
unfoldable pub codes : String → Text
codes String.[] = []
codes (String.◌∷◌ c s) = code c ∷ codes s

-- s == t
unfoldable pub text_eq : Text → Text → Bool
text_eq [] [] = true
text_eq [] (c ∷ t) = false
text_eq (c ∷ s) [] = false
text_eq (c ∷ s) (d ∷ t) = c == d && text_eq s t

pub text_eq_refl : (s : Text) → text_eq s s ≡ true
unfolding text_eq
text_eq_refl [] = refl
text_eq_refl (c ∷ s) = ground (arith, text_eq_refl s)

pub eq_of_text_eq : (s t : Text) → text_eq s t ≡ true → s ≡ t
unfolding text_eq
eq_of_text_eq [] [] h = refl
eq_of_text_eq [] (c ∷ t) h = ground arith
eq_of_text_eq (c ∷ s) [] h = ground arith
eq_of_text_eq (c ∷ s) (d ∷ t) h = ground (arith, eq_of_text_eq s t)

pub text_eq_iff : (s t : Text) → (text_eq s t ≡ true) ↔ (s ≡ t)
text_eq_iff s t = (eq_of_text_eq s t, λ e. ground (arith, text_eq_refl s))

-- s.startswith(prefix)
unfoldable pub starts_with : Text → Text → Bool
starts_with s [] = true
starts_with [] (c ∷ p) = false
starts_with (d ∷ s) (c ∷ p) = c == d && starts_with s p

-- part in s
unfoldable pub contains : Text → Text → Bool
unfolding starts_with
contains [] part = starts_with [] part
contains (c ∷ s) part = starts_with (c ∷ s) part || contains s part

-- str.isspace of one code point.
is_space : ℕ → Bool
is_space c =
    leb 9 c && leb c 13
    || leb 28 c && leb c 32
    || c == 133
    || c == 160
    || c == 5760
    || leb 8192 c && leb c 8202
    || c == 8232
    || c == 8233
    || c == 8239
    || c == 8287
    || c == 12288

drop_space : Text → Text
unfolding is_space
drop_space [] = []
drop_space (c ∷ s) = if is_space c then drop_space s else c ∷ s

-- s.strip()
unfoldable pub strip : Text → Text
unfolding drop_space
strip s = reverse (drop_space (reverse (drop_space s)))

-- A visible character of ASCII.
abbrev pub IsVisible : ℕ → Type 0
IsVisible c = (33 ≤ c) × (c ≤ 126)

drop_space-IsVisible : (s : Text) → All IsVisible s → drop_space s ≡ s
unfolding drop_space is_space
drop_space-IsVisible [] h = refl
drop_space-IsVisible (c ∷ s) ((low, high), rest) = ground arith

All-reverse_aux : (s r : Text) → All IsVisible s → All IsVisible r → All IsVisible (reverse_aux s r)
All-reverse_aux [] r h k = k
All-reverse_aux (c ∷ s) r h k = All-reverse_aux s (c ∷ r) h.1 (h.0, k)

-- A text of visible characters has nothing to strip.
pub strip-IsVisible : (s : Text) → All IsVisible s → strip s ≡ s
unfolding strip
strip-IsVisible s h =
    let front = drop_space-IsVisible s h in
    let back = drop_space-IsVisible (reverse s) (All-reverse_aux s [] h tt) in
    ap (λ r. reverse (drop_space (reverse r))) front ∙ (ap reverse back ∙ reverse-reverse s)
