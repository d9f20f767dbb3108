-- ===== src/Prelude/Text.antt =====
-- `std::string_view::find` of one character, and of a text.
use mathlib.Core.List.{[], ◌∷◌, ◌++◌, tail-eq_of_cons-eq, head-eq_of_cons-eq, cons≢nil}
use native.Mathlib.Decide.{ℕ_discrete}
use mathlib.Core.Logic.{◌≢◌}
use mathlib.Core.Bool.{Bool, true, false, ◌&&◌}
use mathlib.Core.Option.{Option, none, some}
use mathlib.Core.Path.{◌≡◌, refl, sym}
use native.Mathlib.Omega.{arith}
use Prim.Native.Nat.{ℕ, suc}
use moxt_cpp.Prelude.Tests.{◌==◌, if◌then◌else◌}
use moxt_cpp.Prelude.Lists.{Bytes, All, length}

abbrev pub suc_found : Option ℕ → Option ℕ
suc_found none = none
suc_found (some n) = some (suc n)

-- `none` is `npos`.
unfoldable pub find : ℕ → Bytes → Option ℕ
find c [] = none
find c (d ∷ s) = if d == c then some 0 else suc_found (find c s)

abbrev pub Lacks : ℕ → Bytes → Type 0
Lacks c = All (λ d. d ≢ c)

pub find_first : (c : ℕ) (s t : Bytes) → Lacks c s → find c (s ++ c ∷ t) ≡ some (length s)
unfolding find
find_first c [] t h = ground arith
find_first c (d ∷ s) t h = ground (arith, find_first c s t h.1)

pub find-Lacks : (c : ℕ) (s : Bytes) → Lacks c s → find c s ≡ none
unfolding find
find-Lacks c [] h = refl
find-Lacks c (d ∷ s) h = ground (arith, find-Lacks c s h.1)

abbrev pub starts_with : Bytes → Bytes → Bool
starts_with [] s = true
starts_with (c ∷ p) [] = false
starts_with (c ∷ p) (d ∷ s) = d == c && starts_with p s

unfoldable pub find_text : Bytes → Bytes → Option ℕ
find_text p [] = if starts_with p [] then some 0 else none
find_text p (d ∷ s) = if starts_with p (d ∷ s) then some 0 else suc_found (find_text p s)

-- Equality of texts is decided character by character.
abbrev pub same_head : {c d : ℕ} {s t : Bytes} → Dec (c ≡ d) → Dec (s ≡ t) → Dec ((c ∷ s) ≡ (d ∷ t))
same_head (yes p) (yes q) = yes (λ i. p i ∷ q i)
same_head (yes p) (no n) = no (λ e. n (tail-eq_of_cons-eq e))
same_head (no n) q = no (λ e. n (head-eq_of_cons-eq e))

unfoldable pub same_text : Discrete Bytes
same_text [] [] = yes refl
same_text [] (d ∷ t) = no (λ e. cons≢nil (sym e))
same_text (c ∷ s) [] = no cons≢nil
same_text (c ∷ s) (d ∷ t) = same_head (ℕ_discrete c d) (same_text s t)
