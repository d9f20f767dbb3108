-- ===== src/SkipList/Spec.antt =====
-- moxt/skiplist/skiplist.hpp: what a skip list promises, as a list of keys and values in the order
-- of the keys.
use moxt_cpp.SkipList.{precedes}
use moxt_cpp.SkipList.Cells.{Cell}
use moxt_cpp.SkipList.Order.{AllBefore, precedes_ne}
use moxt_cpp.Prelude.{
  ◌≡◌, refl, ap, Bool, true, false, Option, none, some, List, [], ◌∷◌, ◌++◌, All, if◌then◌else◌,
  arith,
}
use moxt_cpp.Prelude.Int.{ℤ, eqb_ℤ}

abbrev pub Entries : Type 0
Entries = List (ℤ × ℤ)

abbrev pub entries : List Cell → Entries
entries [] = []
entries (c ∷ cs) = (c.key, c.value) ∷ entries cs

-- The value of a key.
unfoldable pub value_of : ℤ → Entries → Option ℤ
value_of key [] = none
value_of key ((k, v) ∷ es) = if eqb_ℤ k key then some v else value_of key es

abbrev pub also : {A B : Type 0} → A → List A × B → List A × B
also e (es, b) = (e ∷ es, b)

-- A key is put in its place, or its value is set where that is asked for.
unfoldable pub put_entry : Bool → ℤ → ℤ → Bool → Entries → Entries × Bool
put_entry fwd key value update [] = ((key, value) ∷ [], true)
put_entry fwd key value update ((k, v) ∷ es) =
    let behind = also (k, v) (put_entry fwd key value update es) in
    if precedes fwd k key
    then behind
    else if eqb_ℤ k key
    then ((k, if update then value else v) ∷ es, update)
    else ((key, value) ∷ (k, v) ∷ es, true)

unfoldable pub drop_entry : ℤ → Entries → Entries
drop_entry key [] = []
drop_entry key ((k, v) ∷ es) =
    let rest = (k, v) ∷ drop_entry key es in if eqb_ℤ k key then es else rest

pub entries-append : (a b : List Cell) → entries (a ++ b) ≡ entries a ++ entries b
entries-append [] b = refl
entries-append (c ∷ a) b = ap (λ l. (c.key, c.value) ∷ l) (entries-append a b)

abbrev pub after : Entries → Entries × Bool → Entries × Bool
after [] r = r
after (e ∷ es) r = also e (after es r)

module _ (fwd : Bool) (key : ℤ) where
  -- The keys before a key are passed by.
  pub value_of-before :
      (pre : List Cell) (es : Entries)
      → AllBefore fwd key pre
      → value_of key (entries pre ++ es) ≡ value_of key es
  unfolding value_of
  value_of-before [] es h = refl
  value_of-before (c ∷ pre) es (h, hs) =
      rw (precedes_ne fwd c.key key h) (value_of-before pre es hs)

  pub drop_entry-before :
      (pre : List Cell) (es : Entries)
      → AllBefore fwd key pre
      → drop_entry key (entries pre ++ es) ≡ entries pre ++ drop_entry key es
  unfolding drop_entry
  drop_entry-before [] es h = refl
  drop_entry-before (c ∷ pre) es (h, hs) =
      rw (precedes_ne fwd c.key key h)
        (ap (λ l. (c.key, c.value) ∷ l) (drop_entry-before pre es hs))

  pub put_entry-before :
      (value : ℤ) (update : Bool) (pre : List Cell) (es : Entries)
      → AllBefore fwd key pre
      → put_entry fwd key value update (entries pre ++ es)
        ≡ after (entries pre) (put_entry fwd key value update es)
  unfolding put_entry
  put_entry-before value update [] es h = refl
  put_entry-before value update (c ∷ pre) es (h, hs) =
      rw h (ap (λ r. also (c.key, c.value) r) (put_entry-before value update pre es hs))

  eqb_ℤ-sym : (a b : ℤ) → eqb_ℤ a b ≡ false → eqb_ℤ b a ≡ false
  eqb_ℤ-sym a b h = ground arith

  pub value_of-behind :
      (post : List Cell)
      → All (λ c. precedes fwd key c.key ≡ true) post
      → value_of key (entries post) ≡ none
  unfolding value_of
  value_of-behind [] h = refl
  value_of-behind (c ∷ post) (h, hs) =
      rw (eqb_ℤ-sym key c.key (precedes_ne fwd key c.key h)) (value_of-behind post hs)

  pub drop_entry-behind :
      (post : List Cell)
      → All (λ c. precedes fwd key c.key ≡ true) post
      → drop_entry key (entries post) ≡ entries post
  unfolding drop_entry
  drop_entry-behind [] h = refl
  drop_entry-behind (c ∷ post) (h, hs) =
      rw (eqb_ℤ-sym key c.key (precedes_ne fwd key c.key h))
        (ap (λ l. (c.key, c.value) ∷ l) (drop_entry-behind post hs))

pub after-append : (a es : Entries) (b : Bool) → after a (es, b) ≡ (a ++ es, b)
after-append [] es b = refl
after-append (e ∷ a) es b = ap (λ r. also e r) (after-append a es b)
