-- ===== src/SkipList/Chain.antt =====
-- moxt/skiplist/skiplist.hpp: the pointers of one level as a chain of nodes, and what a change of
-- one pointer makes of it. A column gives the pointer of each node at the level.
use moxt_cpp.Prelude.{◌≡◌, sym, ◌∙◌, ◌≢◌, ℕ, Option, some, List, [], ◌∷◌, ◌++◌, All}

-- From `x` the pointers lead through the nodes `cs` to `f`.
abbrev pub Chain : (ℕ → Option ℕ) → ℕ → List ℕ → ℕ → Type 0
Chain col x [] f = col x ≡ some f
Chain col x (c ∷ cs) f = (col x ≡ some c) × Chain col c cs f

abbrev pub last : ℕ → List ℕ → ℕ
last x [] = x
last x (c ∷ cs) = last c cs

abbrev pub first_or : ℕ → List ℕ → ℕ
first_or f [] = f
first_or f (c ∷ cs) = c

abbrev pub Avoids : ℕ → List ℕ → Type 0
Avoids a = All (λ c. a ≢ c)

abbrev pub Unique : List ℕ → Type 0
Unique [] = Unit
Unique (c ∷ cs) = Avoids c cs × Unique cs

-- Column `col'` has node `n` behind node `u`.
pub record Spliced (u n : ℕ) (col col' : ℕ → Option ℕ) : Type 0 where
  pub before : col' u ≡ some n
  pub after : col' n ≡ col u
  pub elsewhere : (a : ℕ) → a ≢ u → a ≢ n → col' a ≡ col a

-- Column `col'` leads from `u` past `n`.
pub record Bypassed (u n : ℕ) (col col' : ℕ → Option ℕ) : Type 0 where
  pub around : col' u ≡ col n
  pub elsewhere : (a : ℕ) → a ≢ u → a ≢ n → col' a ≡ col a

module _ (col col' : ℕ → Option ℕ) where
  pub Chain-agree :
      (x f : ℕ) (cs : List ℕ)
      → Chain col x cs f
      → All (λ a. col' a ≡ col a) (x ∷ cs)
      → Chain col' x cs f
  Chain-agree x f [] h (e, _) = e ∙ h
  Chain-agree x f (c ∷ cs) (h, hs) (e, es) = (e ∙ h, Chain-agree c f cs hs es)

  agree_all :
      (u n : ℕ) (cs : List ℕ)
      → ((a : ℕ) → a ≢ u → a ≢ n → col' a ≡ col a)
      → Avoids u cs
      → Avoids n cs
      → All (λ a. col' a ≡ col a) cs
  agree_all u n [] h _ _ = tt
  agree_all u n (c ∷ cs) h (p, ps) (q, qs) =
      (h c (λ e. p (sym e)) (λ e. q (sym e)), agree_all u n cs h ps qs)

module _ (col : ℕ → Option ℕ) where
  pub Chain-suffix : (x f : ℕ) (a b : List ℕ) → Chain col x (a ++ b) f → Chain col (last x a) b f
  Chain-suffix x f [] b h = h
  Chain-suffix x f (c ∷ a) b (_, h) = Chain-suffix c f a b h

  pub Chain-first : (x f : ℕ) (cs : List ℕ) → Chain col x cs f → col x ≡ some (first_or f cs)
  Chain-first x f [] h = h
  Chain-first x f (c ∷ cs) (h, _) = h

pub Avoids-last : (a c : ℕ) (cs ds : List ℕ) → Avoids a (c ∷ (cs ++ ds)) → a ≢ last c cs
Avoids-last a c [] ds (h, _) = h
Avoids-last a c (d ∷ cs) ds (_, h) = Avoids-last a d cs ds h

avoided : (n x : ℕ) (pre post : List ℕ) → Avoids x (pre ++ n ∷ post) → x ≢ n
avoided n x [] post (h, _) = h
avoided n x (c ∷ pre) post (_, h) = avoided n x pre post h

module _ (n : ℕ) (col col' : ℕ → Option ℕ) where
  after_first :
      (x f : ℕ) (post : List ℕ)
      → Avoids x post
      → Avoids n post
      → Chain col x post f
      → Spliced x n col col'
      → Chain col' n post f
  after_first x f [] _ _ h s = s.after ∙ h
  after_first x f (c ∷ post) a b (h, hs) s = (
    s.after ∙ h,
    Chain-agree col col' c f post hs (agree_all col col' x n (c ∷ post) s.elsewhere a b),
  )

  pub splice :
      (x f : ℕ) (pre post : List ℕ)
      → Unique (x ∷ (pre ++ post))
      → Avoids n (x ∷ (pre ++ post))
      → Chain col x (pre ++ post) f
      → Spliced (last x pre) n col col'
      → Chain col' x (pre ++ n ∷ post) f
  splice x f [] post (u, us) (_, ns) h s = (s.before, after_first x f post u ns h s)
  splice x f (p ∷ pre) post (u, us) (q, qs) (h, hs) s = (
    s.elsewhere x (Avoids-last x p pre post u) (λ e. q (sym e)) ∙ h,
    splice p f pre post us qs hs s,
  )

  bypass_first :
      (x f : ℕ) (post : List ℕ)
      → Avoids x (n ∷ post)
      → Avoids n post
      → Chain col n post f
      → Bypassed x n col col'
      → Chain col' x post f
  bypass_first x f [] _ _ h s = s.around ∙ h
  bypass_first x f (c ∷ post) (_, a) b (h, hs) s = (
    s.around ∙ h,
    Chain-agree col col' c f post hs (agree_all col col' x n (c ∷ post) s.elsewhere a b),
  )

  pub bypass :
      (x f : ℕ) (pre post : List ℕ)
      → Unique (x ∷ (pre ++ n ∷ post))
      → Chain col x (pre ++ n ∷ post) f
      → Bypassed (last x pre) n col col'
      → Chain col' x (pre ++ post) f
  bypass x f [] post (u, (v, _)) (_, hs) s = bypass_first x f post u v hs s
  bypass x f (p ∷ pre) post (u, us) (h, hs) s = (
    s.elsewhere x (Avoids-last x p pre (n ∷ post) u) (avoided n x (p ∷ pre) post u) ∙ h,
    bypass p f pre post us hs s,
  )
