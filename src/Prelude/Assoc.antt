-- ===== src/Prelude/Assoc.antt =====
-- A `std::map` or `std::unordered_map` as an association list with one entry for a key.
use Prim.Native.Nat.{ℕ, suc, ◌+◌}
use native.Mathlib.Omega.{arith}
use mathlib.Core.Path.{◌≡◌, refl, sym, ◌∙◌}
use mathlib.Core.Logic.{ite, if_pos, if_neg, ◌≢◌}
use mathlib.Core.List.{List, [], ◌∷◌}
use mathlib.Core.Option.{Option, none, some}
use moxt_cpp.Prelude.Lists.{length}

module _ {ℓ κ} {K : Type ℓ} {V : Type κ} (same : Discrete K) where
  unfoldable pub lookup : K → List (K × V) → Option V
  lookup k [] = none
  lookup k ((j, v) ∷ m) = ite (same j k) (some v) (lookup k m)

  -- `m[k] = v`
  unfoldable pub insert : K → V → List (K × V) → List (K × V)
  insert k v [] = (k, v) ∷ []
  insert k v ((j, w) ∷ m) = ite (same j k) ((j, v) ∷ m) ((j, w) ∷ insert k v m)

  -- Every entry with the key goes.
  unfoldable pub erase : K → List (K × V) → List (K × V)
  erase k [] = []
  erase k ((j, w) ∷ m) = ite (same j k) (erase k m) ((j, w) ∷ erase k m)

  -- How many entries `insert` adds.
  unfoldable pub added : Option V → ℕ
  added none = 1
  added (some v) = 0

  pub lookup-head : (k j : K) (v : V) (m : List (K × V)) → j ≡ k → lookup k ((j, v) ∷ m) ≡ some v
  unfolding lookup
  lookup-head k j v m e = if_pos (same j k) e (some v) (lookup k m)

  pub lookup-tail :
      (k j : K) (v : V) (m : List (K × V)) → j ≢ k → lookup k ((j, v) ∷ m) ≡ lookup k m
  unfolding lookup
  lookup-tail k j v m n = if_neg (same j k) n (some v) (lookup k m)

  insert_here :
      (k j : K) (v w : V) (m : List (K × V)) → j ≡ k → insert k v ((j, w) ∷ m) ≡ ((j, v) ∷ m)
  unfolding insert
  insert_here k j v w m e = if_pos (same j k) e ((j, v) ∷ m) ((j, w) ∷ insert k v m)

  insert_there :
      (k j : K) (v w : V) (m : List (K × V))
      → j ≢ k
      → insert k v ((j, w) ∷ m) ≡ ((j, w) ∷ insert k v m)
  unfolding insert
  insert_there k j v w m n = if_neg (same j k) n ((j, v) ∷ m) ((j, w) ∷ insert k v m)

  pub lookup-insert : (k : K) (v : V) (m : List (K × V)) → lookup k (insert k v m) ≡ some v
  unfolding insert
  lookup-insert k v [] = lookup-head k k v [] refl
  lookup-insert k v ((j, w) ∷ m) =
      elim (same j k) as (λ d. lookup k (insert k v ((j, w) ∷ m)) ≡ some v) [
        | yes e ↦ rw (insert_here k j v w m e) (lookup-head k j v m e)
        | no n ↦
            rw (insert_there k j v w m n, lookup-tail k j w (insert k v m) n) (lookup-insert k v m)
      ]

  pub lookup-insert_ne :
      (k i : K) (v : V) (m : List (K × V)) → k ≢ i → lookup i (insert k v m) ≡ lookup i m
  unfolding insert lookup
  lookup-insert_ne k i v [] n = lookup-tail i k v [] n
  lookup-insert_ne k i v ((j, w) ∷ m) n =
      elim (same j k) as (λ d. lookup i (insert k v ((j, w) ∷ m)) ≡ lookup i ((j, w) ∷ m)) [
        | yes e ↦
            rw
              (
                insert_here k j v w m e,
                lookup-tail i j v m (λ h. n (sym e ∙ h)),
                lookup-tail i j w m (λ h. n (sym e ∙ h)),
              )
              refl
        | no d ↦ rw (insert_there k j v w m d) (elim (same j i) [
          | yes h ↦ rw (lookup-head i j w (insert k v m) h, lookup-head i j w m h) refl
          | no h ↦
              rw (lookup-tail i j w (insert k v m) h, lookup-tail i j w m h)
                (lookup-insert_ne k i v m n)
        ])
      ]

  pub length-insert :
      (k : K) (v : V) (m : List (K × V)) → length (insert k v m) ≡ length m + added (lookup k m)
  unfolding insert added lookup
  length-insert k v [] = refl
  length-insert k v ((j, w) ∷ m) =
      elim (same j k)
        as (λ d.
          length (insert k v ((j, w) ∷ m)) ≡ suc (length m) + added (lookup k ((j, w) ∷ m))) [
            | yes e ↦ rw (insert_here k j v w m e, lookup-head k j w m e) (omega arith)
            | no n ↦
                rw (insert_there k j v w m n, lookup-tail k j w m n, length-insert k v m)
                  (omega arith)
          ]

  erase_here : (k j : K) (w : V) (m : List (K × V)) → j ≡ k → erase k ((j, w) ∷ m) ≡ erase k m
  unfolding erase
  erase_here k j w m e = if_pos (same j k) e (erase k m) ((j, w) ∷ erase k m)

  erase_there :
      (k j : K) (w : V) (m : List (K × V)) → j ≢ k → erase k ((j, w) ∷ m) ≡ ((j, w) ∷ erase k m)
  unfolding erase
  erase_there k j w m n = if_neg (same j k) n (erase k m) ((j, w) ∷ erase k m)

  pub lookup-erase : (k : K) (m : List (K × V)) → lookup k (erase k m) ≡ none
  unfolding erase lookup
  lookup-erase k [] = refl
  lookup-erase k ((j, w) ∷ m) = elim (same j k) as (λ d. lookup k (erase k ((j, w) ∷ m)) ≡ none) [
    | yes e ↦ rw (erase_here k j w m e) (lookup-erase k m)
    | no n ↦ rw (erase_there k j w m n, lookup-tail k j w (erase k m) n) (lookup-erase k m)
  ]

  pub lookup-erase_ne : (k i : K) (m : List (K × V)) → k ≢ i → lookup i (erase k m) ≡ lookup i m
  unfolding erase lookup
  lookup-erase_ne k i [] n = refl
  lookup-erase_ne k i ((j, w) ∷ m) n =
      elim (same j k) as (λ d. lookup i (erase k ((j, w) ∷ m)) ≡ lookup i ((j, w) ∷ m)) [
        | yes e ↦
            rw (erase_here k j w m e, lookup-tail i j w m (λ h. n (sym e ∙ h)))
              (lookup-erase_ne k i m n)
        | no d ↦ rw (erase_there k j w m d) (elim (same j i) [
          | yes h ↦ rw (lookup-head i j w (erase k m) h, lookup-head i j w m h) refl
          | no h ↦
              rw (lookup-tail i j w (erase k m) h, lookup-tail i j w m h) (lookup-erase_ne k i m n)
        ])
      ]
