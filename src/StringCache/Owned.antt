-- ===== src/StringCache/Owned.antt =====
-- moxt/libmisc.cpp: every string of the cache is owned by one key.
use moxt_cpp.Prelude.Put.{put, put_here, put_there, put_cases, put-none, put-some}
use mathlib.Core.Option.{some-ne-none, some-injective}
use moxt_cpp.Prelude.{
  ◌≡◌, refl, sym, ◌∙◌, ap, ◌≢◌, inl, inr, Option-cases, ℕ, suc, ◌≤◌, Option, none, some, Bytes,
  arith,
}

-- The text that a key's pointer leads to.
abbrev pub text_at : Option ℕ → (ℕ → Option Bytes) → Option Bytes
text_at none heap = none
text_at (some p) heap = heap p

-- Pointers and a heap hold the texts of `view`: different keys have different strings, every
-- pointer leads to a live string, no string is live without a key, and addresses still to be given
-- are free.
pub record Owns (pointers : ℕ → Option ℕ) (heap : ℕ → Option Bytes) (next : ℕ)
    (view : ℕ → Option Bytes) : Type 0 where
  pub holds : (key : ℕ) → text_at (pointers key) heap ≡ view key
  pub alone : (j k p : ℕ) → pointers j ≡ some p → pointers k ≡ some p → j ≡ k
  pub alive : (key p : ℕ) → pointers key ≡ some p → (s : Bytes) × (heap p ≡ some s)
  pub owned : (p : ℕ) (s : Bytes) → heap p ≡ some s → (key : ℕ) × (pointers key ≡ some p)
  pub unused : (p : ℕ) → next ≤ p → heap p ≡ none

module _ {pointers : ℕ → Option ℕ} {heap : ℕ → Option Bytes} {next : ℕ} {view : ℕ → Option Bytes}
    (w : Owns pointers heap next view) where
  -- An address in use was given before.
  given : (key p : ℕ) → pointers key ≡ some p → next ≢ p
  given key p e n =
      let a = w.alive key p e in
      let u = w.unused p (omega (arith, n)) in absurd (some-ne-none _ (sym a.1 ∙ u))

  module _ (key p : ℕ) (at_key : pointers key ≡ some p) where
    other_address : (k a : ℕ) → key ≢ k → pointers k ≡ some a → p ≢ a
    other_address k a n z e = n (w.alone key k p at_key (z ∙ ap some (sym e)))

    unchanged :
        (k : ℕ) → key ≢ k → text_at (pointers k) (put p none heap) ≡ text_at (pointers k) heap
    unchanged k n = elim (Option-cases (pointers k)) [
      | inl z ↦ rw z refl
      | inr r ↦ rw r.1 (put_there p r.0 none heap (other_address k r.0 n r.1))
    ]

    after_delete :
        (k : ℕ) → text_at (put key none pointers k) (put p none heap) ≡ put key none view k
    after_delete k = elim (put_cases key k none pointers) [
      | inl r ↦ rw (r.1, put_here key k none view r.0) refl
      | inr r ↦ rw (r.1, put_there key k none view r.0, unchanged k r.0) (w.holds k)
    ]

    pub delete-Owns : Owns (put key none pointers) (put p none heap) next (put key none view)
    delete-Owns = record {
      holds = after_delete;
      alone = λ j k a e d.
          w.alone j k a (put-none key j a pointers e).1 (put-none key k a pointers d).1;
      alive = λ k a e.
          let r = put-none key k a pointers e in
          let s = w.alive k a r.1 in
          (s.0, put_there p a none heap (other_address k a r.0 r.1) ∙ s.1);
      owned = λ a s e.
          let r = put-none p a s heap e in
          let k = w.owned a s r.1 in
          (
            k.0,
            put_there key k.0 none pointers
                  (λ h. r.0 (some-injective p a (sym at_key ∙ ap pointers h ∙ k.1)))
                ∙ k.1,
          );
      unused = λ a h. elim (put_cases p a none heap) [ inl r ↦ r.1 | inr r ↦ r.1 ∙ w.unused a h ];
    }

  module _ (key : ℕ) (s : Bytes) (no_key : pointers key ≡ none) where
    kept : (k : ℕ) → text_at (pointers k) (put next (some s) heap) ≡ text_at (pointers k) heap
    kept k = elim (Option-cases (pointers k)) [
      | inl z ↦ rw z refl
      | inr r ↦ rw r.1 (put_there next r.0 (some s) heap (given k r.0 r.1))
    ]

    after_store :
        (k : ℕ)
        → text_at (put key (some next) pointers k) (put next (some s) heap)
          ≡ put key (some s) view k
    after_store k = elim (put_cases key k (some next) pointers) [
      | inl r ↦ rw (r.1, put_here key k (some s) view r.0) (put_here next next (some s) heap refl)
      | inr r ↦ rw (r.1, put_there key k (some s) view r.0, kept k) (w.holds k)
    ]

    store_alone :
        (j k a : ℕ)
        → put key (some next) pointers j ≡ some a
        → put key (some next) pointers k ≡ some a
        → j ≡ k
    store_alone j k a e d = elim (put-some key j next a pointers e) [
      | inl r ↦ elim (put-some key k next a pointers d) [
        | inl q ↦ sym r.0 ∙ q.0
        | inr q ↦ absurd (given k a q.1 r.1)
      ]
      | inr r ↦ elim (put-some key k next a pointers d) [
        | inl q ↦ absurd (given j a r.1 q.1)
        | inr q ↦ w.alone j k a r.1 q.1
      ]
    ]

    pub store-Owns :
        Owns
          (put key (some next) pointers)
          (put next (some s) heap)
          (suc next)
          (put key (some s) view)
    store-Owns = record {
      holds = after_store;
      alone = store_alone;
      alive = λ k a e. elim (put-some key k next a pointers e) [
        | inl r ↦ (s, put_here next a (some s) heap r.1)
        | inr r ↦
            let t = w.alive k a r.1 in (t.0, put_there next a (some s) heap (given k a r.1) ∙ t.1)
      ];
      owned = λ a t e. elim (put-some next a s t heap e) [
        | inl r ↦ (key, put_here key key (some next) pointers refl ∙ ap some r.0)
        | inr r ↦
            let k = w.owned a t r.1 in
            (
              k.0,
              put_there key k.0 (some next) pointers
                    (λ h. some-ne-none _ (sym k.1 ∙ ap pointers (sym h) ∙ no_key))
                  ∙ k.1,
            )
      ];
      unused = λ a h. put_there next a (some s) heap (omega arith) ∙ w.unused a (omega arith);
    }
