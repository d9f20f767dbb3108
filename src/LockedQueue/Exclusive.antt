-- ===== src/LockedQueue/Exclusive.antt =====
-- moxt/utils/spinlock.hpp and moxt/utils/spscqueue_safe.hpp: who holds the lock.
use mathlib.Core.Path.{subst}
use mathlib.Core.Option.{some-injective, some-ne-none}
use moxt_cpp.Queue.{Queue, head}
use moxt_cpp.LockedQueue.{
  Call, push_value, pop_value, Pc, idle, reading, pointing, lost, exchanging, spinning, pushing,
  taking, unlocking, Event, Turn, begin, go, begun, System, new_queue, Moved, move, moved, entered,
  exchanged, loaded, pushed, fronted, read_through, step, run,
}
use moxt_cpp.Prelude.{
  ◌≡◌, refl, sym, ◌∙◌, ◌≢◌, ℕ, Bool, true, false, Option, none, some, List, [], ◌∷◌, Bool-cases,
  Option-cases, inl, inr,
}
use moxt_cpp.Prelude.Put.{assign, assign_all}

-- From the exchange that took the lock up to the store that gives it back.
abbrev pub holds : {A : Type 0} → Pc A → Bool
holds idle = false
holds (exchanging c) = false
holds (spinning c) = false
holds lost = false
holds p = true

-- What a thread relies on: the element that its pointer points at is in front.
abbrev pub Relies : {A : Type 0} → Pc A → List A → Type 0
Relies {A} pointing xs = (x : A) × (head xs ≡ some x)
Relies (taking x) xs = head xs ≡ some x
Relies lost xs = ⊥
Relies p xs = Unit

abbrev pub is_some : {A : Type 0} → Option A → Bool
is_some none = false
is_some (some a) = true

module _ {A : Type 0} (q : Queue A) where
  -- The flag is set exactly while one thread holds the lock.
  pub record Exclusive (s : System q) : Type 0 where
    pub owner : Option ℕ
    pub flagged : s.flag ≡ is_some owner
    pub only : (t : ℕ) → holds (s.pc t) ≡ true → owner ≡ some t
    pub owned : (t : ℕ) → owner ≡ some t → holds (s.pc t) ≡ true
    pub relies : (t : ℕ) → Relies (s.pc t) (q.items s.queue)

  pub new_queue-Exclusive : (capacity : ℕ) → Exclusive (new_queue q capacity)
  new_queue-Exclusive capacity = record {
    owner = none;
    flagged = refl;
    only = λ t h. cc;
    owned = λ t h. cc;
    relies = λ t. tt;
  }

  -- A thread that does not hold the lock relies on nothing.
  Relies-free : (p : Pc A) (xs ys : List A) → holds p ≡ false → Relies p xs → Relies p ys
  Relies-free idle xs ys h r = tt
  Relies-free (exchanging c) xs ys h r = tt
  Relies-free (spinning c) xs ys h r = tt
  Relies-free lost xs ys h r = absurd r
  Relies-free reading xs ys h r = tt
  Relies-free pointing xs ys h r = absurd cc
  Relies-free (pushing v) xs ys h r = tt
  Relies-free (taking x) xs ys h r = absurd cc
  Relies-free (unlocking a) xs ys h r = tt

  module _ (s : System q) (v : Exclusive s) (t : ℕ) where
    pub others_free : v.owner ≡ some t → (u : ℕ) → t ≢ u → holds (s.pc u) ≡ false
    others_free e u n = elim (Bool-cases (holds (s.pc u))) [
      | inl h ↦ absurd (n (some-injective t u (sym e ∙ v.only u h)))
      | inr h ↦ h
    ]

    abbrev after : Moved q → System q
    after m = record { flag = m.flag; queue = m.queue; pc = assign t m.pc s.pc }

    -- A step of a thread without the lock that does not take it.
    outside :
        (f : Bool) (p : Pc A) (events : List (Event A))
        → f ≡ s.flag
        → holds (s.pc t) ≡ false
        → holds p ≡ false
        → Relies p (q.items s.queue)
        → Exclusive (after (moved q f s.queue p events))
    outside f p events fl h k r = record {
      owner = v.owner;
      flagged = fl ∙ v.flagged;
      only =
          assign_all (λ u p. holds p ≡ true → v.owner ≡ some u) t p s.pc (λ e. cc)
            (λ u n. v.only u);
      owned =
          assign_all (λ u p. v.owner ≡ some u → holds p ≡ true) t p s.pc
            (λ e. let k = v.owned t e in absurd cc) (λ u n. v.owned u);
      relies = assign_all (λ u p. Relies p (q.items s.queue)) t p s.pc r (λ u n. v.relies u);
    }

    -- The exchange that takes the lock.
    takes :
        (p : Pc A) (events : List (Event A))
        → v.owner ≡ none
        → holds p ≡ true
        → Relies p (q.items s.queue)
        → Exclusive (after (moved q true s.queue p events))
    takes p events n h r = record {
      owner = some t;
      flagged = refl;
      only =
          assign_all (λ u p. holds p ≡ true → some t ≡ some u) t p s.pc (λ e. refl)
            (λ u d e. absurd (some-ne-none u (sym (v.only u e) ∙ n)));
      owned =
          assign_all (λ u p. some t ≡ some u → holds p ≡ true) t p s.pc (λ e. h)
            (λ u d e. absurd (d (some-injective t u e)));
      relies = assign_all (λ u p. Relies p (q.items s.queue)) t p s.pc r (λ u n. v.relies u);
    }

    -- A step of the thread with the lock, which may change the queue.
    inside :
        (f : Bool) (queue : q.Ring) (p : Pc A) (events : List (Event A))
        → f ≡ s.flag
        → v.owner ≡ some t
        → holds p ≡ true
        → Relies p (q.items queue)
        → Exclusive (after (moved q f queue p events))
    inside f queue p events fl e h r = record {
      owner = v.owner;
      flagged = fl ∙ v.flagged;
      only =
          assign_all (λ u p. holds p ≡ true → v.owner ≡ some u) t p s.pc (λ _. e) (λ u n. v.only u);
      owned =
          assign_all (λ u p. v.owner ≡ some u → holds p ≡ true) t p s.pc (λ _. h)
            (λ u n. v.owned u);
      relies =
          assign_all (λ u p. Relies p (q.items queue)) t p s.pc r
            (λ u n.
              Relies-free (s.pc u) (q.items s.queue) (q.items queue) (others_free e u n)
                (v.relies u));
    }

    -- The store that gives the lock back.
    leaves :
        (events : List (Event A))
        → v.owner ≡ some t
        → Exclusive (after (moved q false s.queue idle events))
    leaves events e = record {
      owner = none;
      flagged = refl;
      only =
          assign_all (λ u p. holds p ≡ true → none ≡ some u) t idle s.pc (λ h. cc)
            (λ u n h. let k = others_free e u n in absurd cc);
      owned = λ u h. cc;
      relies = assign_all (λ u p. Relies p (q.items s.queue)) t idle s.pc tt (λ u n. v.relies u);
    }

    free_owner : s.flag ≡ false → v.owner ≡ none
    free_owner e = elim (Option-cases v.owner) [
      | inl n ↦ n
      | inr (u, h) ↦ let k : is_some v.owner ≡ true = rw h refl in let f = v.flagged in absurd cc
    ]

    entered-Relies : (c : Call A) (xs : List A) → Relies (entered q c) xs
    entered-Relies (push_value x) xs = tt
    entered-Relies pop_value xs = tt

    entered-holds : (c : Call A) → holds (entered q c) ≡ true
    entered-holds (push_value x) = refl
    entered-holds pop_value = refl

    waiting :
        (f : Bool) (c : Call A)
        → holds (s.pc t) ≡ false
        → f ≡ s.flag
        → Exclusive (after (exchanged q f c s.queue)) × Exclusive (after (loaded q f c s.queue))
    waiting true c h e =
        (outside true (spinning c) [] e h refl tt, outside true (spinning c) [] e h refl tt)
    waiting false c h e = (
      takes (entered q c) [] (free_owner (sym e)) (entered-holds c)
          (entered-Relies c (q.items s.queue)),
      outside false (exchanging c) [] e h refl tt,
    )

    pushed-Exclusive :
        (o : Option q.Ring) (x : A)
        → holds (s.pc t) ≡ true
        → Exclusive (after (pushed q o s.flag s.queue x))
    pushed-Exclusive none x h = inside s.flag s.queue (pushing x) [] refl (v.only t h) refl tt
    pushed-Exclusive (some r) x h =
        inside s.flag r (unlocking none) (Event.put x ∷ []) refl (v.only t h) refl tt

    fronted-Exclusive :
        (o : Option A)
        → holds (s.pc t) ≡ true
        → head (q.items s.queue) ≡ o
        → Exclusive (after (fronted q o s.flag s.queue))
    fronted-Exclusive none h e =
        inside s.flag s.queue (unlocking none) (Event.missed ∷ []) refl (v.only t h) refl tt
    fronted-Exclusive (some x) h e = inside s.flag s.queue pointing [] refl (v.only t h) refl (x, e)

    through-Exclusive :
        (o : Option A) (x : A)
        → holds (s.pc t) ≡ true
        → head (q.items s.queue) ≡ some x
        → head (q.items s.queue) ≡ o
        → Exclusive (after (read_through q o s.flag s.queue))
    through-Exclusive none x h e f = absurd (some-ne-none x (sym e ∙ f))
    through-Exclusive (some y) x h e f =
        inside s.flag s.queue (taking y) [] refl (v.only t h) refl f

    move-Exclusive : (p : Pc A) → s.pc t ≡ p → Exclusive (after (move q p s.flag s.queue))
    unfolding move
    move-Exclusive idle e = outside s.flag idle [] refl (rw e refl) refl tt
    move-Exclusive (exchanging c) e = (waiting s.flag c (rw e refl) refl).0
    move-Exclusive (spinning c) e = (waiting s.flag c (rw e refl) refl).1
    move-Exclusive (pushing x) e = pushed-Exclusive (q.push s.queue x) x (rw e refl)
    move-Exclusive reading e =
        fronted-Exclusive (q.front s.queue) (rw e refl) (sym (q.front-items s.queue))
    move-Exclusive pointing e =
        let r = subst (λ p. Relies p (q.items s.queue)) e (v.relies t) in
        through-Exclusive (q.front s.queue) r.0 (rw e refl) r.1 (sym (q.front-items s.queue))
    move-Exclusive (taking x) e =
        inside s.flag (q.pop s.queue) (unlocking (some x)) (Event.took x ∷ []) refl
          (v.only t (rw e refl)) refl tt
    move-Exclusive (unlocking a) e = leaves [] (v.only t (rw e refl))
    move-Exclusive lost e = absurd (subst (λ p. Relies p (q.items s.queue)) e (v.relies t))

    -- A thread that stays where it is.
    still :
        (p : Pc A)
        → s.pc t ≡ p
        → Exclusive (record { flag = s.flag; queue = s.queue; pc = assign t p s.pc })
    still p e = record {
      owner = v.owner;
      flagged = v.flagged;
      only =
          assign_all (λ u p. holds p ≡ true → v.owner ≡ some u) t p s.pc
            (subst (λ p. holds p ≡ true → v.owner ≡ some t) e (v.only t)) (λ u n. v.only u);
      owned =
          assign_all (λ u p. v.owner ≡ some u → holds p ≡ true) t p s.pc
            (subst (λ p. v.owner ≡ some t → holds p ≡ true) e (v.owned t)) (λ u n. v.owned u);
      relies =
          assign_all (λ u p. Relies p (q.items s.queue)) t p s.pc
            (subst (λ p. Relies p (q.items s.queue)) e (v.relies t)) (λ u n. v.relies u);
    }

    begun_as :
        (c : Call A) (p : Pc A)
        → s.pc t ≡ p
        → Exclusive (record { flag = s.flag; queue = s.queue; pc = assign t (begun c p) s.pc })
    begun_as c idle e = outside s.flag (exchanging c) [] refl (rw e refl) refl tt
    begun_as c p e = still p e

  pub step-Exclusive : (t : Turn A) (s : System q) → Exclusive s → Exclusive (step q t s).0
  unfolding step
  step-Exclusive (begin t c) s v = begun_as s v t c (s.pc t) refl
  step-Exclusive (go t) s v = move-Exclusive s v t (s.pc t) refl

  -- Whatever threads push and pop in whatever order, at most one of them holds the lock, which its
  -- flag shows, and no thread reads through a pointer to an element that is gone.
  pub run-Exclusive : (ts : List (Turn A)) (s : System q) → Exclusive s → Exclusive (run q ts s).0
  unfolding run
  run-Exclusive [] s v = v
  run-Exclusive (t ∷ ts) s v = run-Exclusive ts (step q t s).0 (step-Exclusive t s v)
