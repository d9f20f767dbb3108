-- ===== src/RateLimiter/Window.antt =====
-- What the limiter promises: the window slides over the requests that were let through.
use mathlib.Core.List.{reverse, reverse-append, reverse-cons}
use moxt_cpp.Prelude.{
  ℕ, zero, suc, ◌+◌, ◌-◌, ◌%◌, ◌^◌, ◌≤◌, ◌<◌, ◌≡◌, ◌∙◌, refl, sym, ap, Bool, true, false, not, ◌&&◌,
  lt→ltb, none, some, List, [], ◌∷◌, ◌++◌, length, take, take_all, length-reverse, get_elem?,
  append_assoc, append-nil, arith, ltb, leb, ◌==◌, if◌then◌else◌, All, Bool-cases, Option-cases,
  inl, inr,
}
use moxt_cpp.RateLimiter.Buffer.{RingBuf}
use moxt_cpp.RateLimiter.{Limiter, window_start, oldest, allow_and_record_request, new_limiter, run}

-- In a list of times, newest first, each is more than `w` after the one `suc k` places behind it.
abbrev pub Spaced : ℕ → ℕ → List ℕ → Type 0
Spaced k w [] = Unit
Spaced k w (t ∷ ts) = ((u : ℕ) → get_elem? ts k ≡ some u → u + w < t) × Spaced k w ts

-- The clock at a request: past the window, and within uint64_t.
abbrev pub Clock : ℕ → ℕ → Type 0
Clock w t = (0 < t) × (w ≤ t) × (t < 2 ^ 64)

-- The sliding log: `history` holds the times let through, newest first. A request is let through
-- if the one `suc k` requests before it lies more than the window back, or there is none.
abbrev pub admits : ℕ → ℕ → List ℕ → ℕ → Bool
admits k w history now = elim (get_elem? history k) [ none ↦ true | some t ↦ ltb (t + w) now ]

pub log : ℕ → ℕ → List ℕ → List ℕ → List ℕ
log k w history [] = []
log k w history (now ∷ times) =
    let later = log k w (now ∷ history) times in
    let same = log k w history times in if admits k w history now then now ∷ later else same

take-none : (h : List ℕ) (k : ℕ) → get_elem? h k ≡ none → length h ≤ k
take-none [] k e = omega arith
take-none (t ∷ h) zero e = cc
take-none (t ∷ h) (suc k) e = omega (arith, take-none h k e)

take-some : (h : List ℕ) (k t : ℕ) → get_elem? h k ≡ some t → take (suc k) h ≡ take k h ++ t ∷ []
take-some [] k t e = cc
take-some (u ∷ h) zero t e = ground arith
take-some (u ∷ h) (suc k) t e = ap (λ r. u ∷ r) (take-some h k t e)

length-take_full : (h : List ℕ) (k t : ℕ) → get_elem? h k ≡ some t → length (take k h) ≡ k
length-take_full [] k t e = cc
length-take_full (u ∷ h) zero t e = refl
length-take_full (u ∷ h) (suc k) t e = ap suc (length-take_full h k t e)

get-positive : (h : List ℕ) (k t : ℕ) → All (λ u. 0 < u) h → get_elem? h k ≡ some t → 0 < t
get-positive [] k t p e = cc
get-positive (u ∷ h) zero t p e = ground arith
get-positive (u ∷ h) (suc k) t p e = get-positive h k t p.1 e

-- The test of the code, by the state of the ring.
test_room : (f start m n : ℕ) → n < m → (not (f == 0) && (leb start f && leb m n)) ≡ false
test_room f start m n h = ground arith

test_full :
    (f start m n : ℕ) → 0 < f → m ≤ n → (not (f == 0) && (leb start f && leb m n)) ≡ leb start f
test_full f start m n p h = ground arith

in_window :
    (t w now : ℕ) → Clock w now → leb ((now + 2 ^ 64 - w) % 2 ^ 64) t ≡ not (ltb (t + w) now)
in_window t w now (pos, past, small) = ground arith

admits-none : (k w : ℕ) (h : List ℕ) (now : ℕ) → get_elem? h k ≡ none → admits k w h now ≡ true
admits-none k w h now e = rw (e, admits)

admits-some :
    (k w : ℕ) (h : List ℕ) (now t : ℕ) → get_elem? h k ≡ some t → admits k w h now ≡ ltb (t + w) now
admits-some k w h now t e = rw (e, admits)

module _ (R : RingBuf) where
  abbrev refuses : Limiter R → ℕ → Bool
  refuses l now =
      not (oldest R l == 0)
      && (leb (window_start R now l.window_size) (oldest R l) && leb l.max_count (R.size l.rb))

  accept :
      (l : Limiter R) (now : ℕ)
      → refuses l now ≡ false
      → allow_and_record_request R now l ≡ (record l { rb = R.push_back l.rb now }, true)
  unfolding allow_and_record_request
  accept l now e = rw e

  refuse :
      (l : Limiter R) (now : ℕ)
      → refuses l now ≡ true
      → allow_and_record_request R now l ≡ (l, false)
  unfolding allow_and_record_request
  refuse l now e = rw e

  oldest_lem : (l : Limiter R) (x : ℕ) (xs : List ℕ) → R.elements l.rb ≡ x ∷ xs → oldest R l ≡ x
  oldest_lem l x xs e = rw (
    lt→ltb 0 (R.size l.rb) (omega (arith, R.size-elements l.rb, ap length e)),
    R.front-elements l.rb x xs e,
  )

module _ (R : RingBuf) (k w : ℕ) where
  -- The ring holds the last suc k times let through, the oldest first.
  record Holds (l : Limiter R) (history : List ℕ) : Type 0 where
    count : l.max_count ≡ suc k
    window : l.window_size ≡ w
    room : R.capacity l.rb ≡ suc k
    content : R.elements l.rb ≡ reverse (take (suc k) history)
    positive : All (λ t. 0 < t) history

  abbrev Agrees : Limiter R → List ℕ → ℕ → Type 0
  Agrees l h now =
      ((allow_and_record_request R now l).1 ≡ admits k w h now)
      × Holds (allow_and_record_request R now l).0 (if admits k w h now then now ∷ h else h)

  -- After a push, the ring holds one more time.
  Holds-push :
      (l : Limiter R) (h : List ℕ) (now : ℕ)
      → Holds l h
      → 0 < now
      → R.elements (R.push_back l.rb now) ≡ reverse (take (suc k) (now ∷ h))
      → Holds (record l { rb = R.push_back l.rb now }) (now ∷ h)
  Holds-push l h now v p e = record {
    count = v.count;
    window = v.window;
    room = R.capacity-push_back l.rb now ∙ v.room;
    content = e;
    positive = (p, v.positive);
  }

  -- The ring has room: the request is let through.
  with_room :
      (l : Limiter R) (h : List ℕ) (now : ℕ)
      → Holds l h
      → Clock w now
      → get_elem? h k ≡ none
      → Agrees l h now
  with_room l h now v c e =
      let short : length h ≤ k = take-none h k e in
      let all : R.elements l.rb ≡ reverse h =
        v.content ∙ ap reverse (take_all (suc k) h (omega arith)) in
      let size : R.size l.rb ≡ length h = R.size-elements l.rb ∙ ap length all ∙ length-reverse h in
      let e' : refuses R l now ≡ false =
        test_room (oldest R l) _ l.max_count (R.size l.rb) (omega (arith, v.count)) in
      let pushed : R.elements (R.push_back l.rb now) ≡ reverse (take (suc k) (now ∷ h)) =
        R.push_back_room l.rb now (omega (arith, v.room, R.size-elements l.rb))
        ∙ ap (λ r. r ++ now ∷ []) all
        ∙ sym (reverse-cons now h)
        ∙ ap (λ r. reverse (now ∷ r)) (sym (take_all k h short)) in
      rw (accept R l now e', admits-none k w h now e) (refl, Holds-push l h now v c.0 pushed)

  -- The ring is full: its front decides.
  when_full :
      (l : Limiter R) (h : List ℕ) (now t : ℕ)
      → Holds l h
      → Clock w now
      → get_elem? h k ≡ some t
      → Agrees l h now
  when_full l h now t v c e =
      let all : R.elements l.rb ≡ t ∷ reverse (take k h) =
        v.content ∙ ap reverse (take-some h k t e) ∙ reverse-append (take k h) (t ∷ []) in
      let full : length (t ∷ reverse (take k h)) ≡ R.capacity l.rb =
        omega (arith, v.room, length-reverse (take k h), length-take_full h k t e) in
      let size : R.size l.rb ≡ suc k =
        omega (arith, R.size-elements l.rb, ap length all, v.room, full) in
      let decided : refuses R l now ≡ not (ltb (t + w) now) =
        ap
          (λ f.
            not (f == 0)
            && (leb (window_start R now l.window_size) f && leb l.max_count (R.size l.rb)))
          (oldest_lem R l t (reverse (take k h)) all)
        ∙ test_full t (window_start R now l.window_size) l.max_count (R.size l.rb)
            (get-positive h k t v.positive e) (omega (arith, v.count))
        ∙ ap (λ x. leb (window_start R now x) t) v.window
        ∙ in_window t w now c in
      let pushed : R.elements (R.push_back l.rb now) ≡ reverse (take (suc k) (now ∷ h)) =
        R.push_back_full l.rb now t (reverse (take k h)) all full
        ∙ sym (reverse-cons now (take k h)) in
      elim (Bool-cases (ltb (t + w) now)) [
        | inl late ↦
            rw (accept R l now (decided ∙ ap not late), admits-some k w h now t e, late)
              (refl, Holds-push l h now v c.0 pushed)
        | inr early ↦
            rw (refuse R l now (decided ∙ ap not early), admits-some k w h now t e, early) (refl, v)
      ]

  each_step : (l : Limiter R) (h : List ℕ) (now : ℕ) → Holds l h → Clock w now → Agrees l h now
  each_step l h now v c = elim (Option-cases (get_elem? h k)) [
    | inl e ↦ with_room l h now v c e
    | inr (t, e) ↦ when_full l h now t v c e
  ]

  run-log :
      (l : Limiter R) (h times : List ℕ)
      → Holds l h
      → All (Clock w) times
      → (run R l times).1 ≡ log k w h times
  unfolding run log
  run-log l h [] v c = refl
  run-log l h (now ∷ times) v c =
      let l' = (allow_and_record_request R now l).0 in
      let (decision, kept) = each_step l h now v c.0 in
      elim (Bool-cases (admits k w h now)) [
        | inl e ↦
            rw (decision, e) (ap (λ r. now ∷ r) (run-log l' (now ∷ h) times (rw e at kept) c.1))
        | inr e ↦ rw (decision, e) (run-log l' h times (rw e at kept) c.1)
      ]

  new_limiter-Holds : Holds (new_limiter R (suc k) w) []
  unfolding new_limiter
  new_limiter-Holds = record {
    count = refl;
    window = refl;
    room = R.capacity-make (suc k);
    content = R.elements-make (suc k);
    positive = tt;
  }

-- A limiter of one or more requests lets through exactly the requests that the sliding log lets
-- through, at clock times that are positive, not before the window's length, and within uint64_t;
-- the times need not be in order.
pub run-new_limiter :
    (R : RingBuf) (k w : ℕ) (times : List ℕ)
    → All (Clock w) times
    → (run R (new_limiter R (suc k) w) times).1 ≡ log k w [] times
run-new_limiter R k w times =
    run-log R k w (new_limiter R (suc k) w) [] times (new_limiter-Holds R k w)

admitted :
    (k w : ℕ) (h : List ℕ) (now u : ℕ)
    → admits k w h now ≡ true
    → get_elem? h k ≡ some u
    → u + w < now
admitted k w h now u a e =
    let late : ltb (u + w) now ≡ true = sym (admits-some k w h now u e) ∙ a in ground arith

reverse_onto : (now : ℕ) (xs h : List ℕ) → reverse (now ∷ xs) ++ h ≡ reverse xs ++ now ∷ h
reverse_onto now xs h =
    ap (λ r. r ++ h) (reverse-cons now xs) ∙ append_assoc (reverse xs) (now ∷ []) h

log-Spaced :
    (k w : ℕ) (h times : List ℕ) → Spaced k w h → Spaced k w (reverse (log k w h times) ++ h)
unfolding log
log-Spaced k w h [] s = s
log-Spaced k w h (now ∷ times) s = elim (Bool-cases (admits k w h now)) [
  | inl e ↦
      rw (e, reverse_onto) (log-Spaced k w (now ∷ h) times (λ u g. admitted k w h now u e g, s))
  | inr e ↦ rw e (log-Spaced k w h times s)
]

-- No window holds more requests than allowed: with suc k requests allowed, each request let
-- through is more than the window's length after the one suc k requests before it, at clock times
-- that are positive, not before the window's length, and within uint64_t.
run-Spaced :
    (R : RingBuf) (k w : ℕ) (times : List ℕ)
    → All (Clock w) times
    → Spaced k w (reverse (run R (new_limiter R (suc k) w) times).1)
run-Spaced R k w times c =
    rw (run-new_limiter R k w times c) (rw append-nil at (log-Spaced k w [] times tt))
