-- ===== src/Prelude/Put.antt =====
-- A map as a function, with one key changed; the association lists read as such maps.
use Prim.Native.Nat.{ℕ}
use native.Mathlib.Decide.{ℕ_discrete}
use mathlib.Core.Path.{◌≡◌, sym, ◌∙◌, subst}
use mathlib.Core.Logic.{ite, if_pos, if_neg, ◌≢◌, ◌⊎◌, inl, inr}
use mathlib.Core.List.{List}
use mathlib.Core.Option.{Option, none, some, some-ne-none, some-injective}
use moxt_cpp.Prelude.Assoc

-- A function with one value changed.
abbrev pub assign {ℓ} : {A : Type ℓ} → ℕ → A → (ℕ → A) → ℕ → A
assign k a f j = ite (ℕ_discrete k j) a (f j)

module _ {A : Type 0} where
  pub assign_here : (k j : ℕ) (a : A) (f : ℕ → A) → k ≡ j → assign k a f j ≡ a
  assign_here k j a f e = if_pos (ℕ_discrete k j) e a (f j)

  pub assign_there : (k j : ℕ) (a : A) (f : ℕ → A) → k ≢ j → assign k a f j ≡ f j
  assign_there k j a f n = if_neg (ℕ_discrete k j) n a (f j)

  -- What holds of the new value, and of the others.
  pub assign_all :
      (P : ℕ → A → Type 0) (k : ℕ) (a : A) (f : ℕ → A)
      → P k a
      → ((j : ℕ) → k ≢ j → P j (f j))
      → (j : ℕ) → P j (assign k a f j)
  assign_all P k a f h o j = elim (ℕ_discrete k j) [
    | yes e ↦ subst (λ b. P j b) (sym (assign_here k j a f e)) (subst (λ i. P i a) e h)
    | no n ↦ subst (λ b. P j b) (sym (assign_there k j a f n)) (o j n)
  ]

module _ {A : Type 0} where
  -- A map with one key changed.
  abbrev pub put : ℕ → Option A → (ℕ → Option A) → ℕ → Option A
  put key o f k = ite (ℕ_discrete key k) o (f k)

  pub put_here : (key k : ℕ) (o : Option A) (f : ℕ → Option A) → key ≡ k → put key o f k ≡ o
  put_here key k o f e = if_pos (ℕ_discrete key k) e o (f k)

  pub put_there : (key k : ℕ) (o : Option A) (f : ℕ → Option A) → key ≢ k → put key o f k ≡ f k
  put_there key k o f n = if_neg (ℕ_discrete key k) n o (f k)

  pub put_cases :
      (key k : ℕ) (o : Option A) (f : ℕ → Option A)
      → ((key ≡ k) × (put key o f k ≡ o)) ⊎ ((key ≢ k) × (put key o f k ≡ f k))
  put_cases key k o f =
      elim (ℕ_discrete key k)
        as (λ d. ((key ≡ k) × (put key o f k ≡ o)) ⊎ ((key ≢ k) × (put key o f k ≡ f k))) [
          | yes e ↦ inl (e, put_here key k o f e)
          | no n ↦ inr (n, put_there key k o f n)
        ]

  pub put-none :
      (key k : ℕ) (a : A) (f : ℕ → Option A)
      → put key none f k ≡ some a
      → (key ≢ k) × (f k ≡ some a)
  put-none key k a f h = elim (put_cases key k none f) [
    | inl r ↦ absurd (some-ne-none _ (sym h ∙ r.1))
    | inr r ↦ (r.0, sym r.1 ∙ h)
  ]

  pub put-some :
      (key k : ℕ) (b a : A) (f : ℕ → Option A)
      → put key (some b) f k ≡ some a
      → ((key ≡ k) × (b ≡ a)) ⊎ ((key ≢ k) × (f k ≡ some a))
  put-some key k b a f h = elim (put_cases key k (some b) f) [
    | inl r ↦ inl (r.0, some-injective b a (sym r.1 ∙ h))
    | inr r ↦ inr (r.0, sym r.1 ∙ h)
  ]

module _ {V : Type 0} (key : ℕ) (v : V) (m : List (ℕ × V)) where
  pub lookup-insert-put :
      (k : ℕ)
      → Assoc.lookup ℕ_discrete k (Assoc.insert ℕ_discrete key v m)
        ≡ put key (some v) (λ j. Assoc.lookup ℕ_discrete j m) k
  lookup-insert-put k = elim (put_cases key k (some v) (λ j. Assoc.lookup ℕ_discrete j m)) [
    | inl r ↦ rw (r.1, ← r.0) (Assoc.lookup-insert ℕ_discrete key v m)
    | inr r ↦ Assoc.lookup-insert_ne ℕ_discrete key k v m r.0 ∙ sym r.1
  ]

module _ {V : Type 0} (key : ℕ) (m : List (ℕ × V)) where
  pub lookup-erase-put :
      (k : ℕ)
      → Assoc.lookup ℕ_discrete k (Assoc.erase ℕ_discrete key m)
        ≡ put key none (λ j. Assoc.lookup ℕ_discrete j m) k
  lookup-erase-put k = elim (put_cases key k none (λ j. Assoc.lookup ℕ_discrete j m)) [
    | inl r ↦ rw (r.1, ← r.0) (Assoc.lookup-erase ℕ_discrete key m)
    | inr r ↦ Assoc.lookup-erase_ne ℕ_discrete key k m r.0 ∙ sym r.1
  ]
