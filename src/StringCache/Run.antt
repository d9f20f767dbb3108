-- ===== src/StringCache/Run.antt =====
-- moxt/libmisc.cpp: the string cache after any sequence of calls.
use native.Mathlib.Decide.{ℕ_discrete}
use mathlib.Core.Option.{some-ne-none}
use mathlib.Core.Path.{subst}
use moxt_cpp.StringCache.{
  at, new_string, drop_string, delete, Cache, pointer, store, replace, release, empty,
  seq_set_string_in_cache, seq_get_string_in_cache, seq_free_string_in_cache, read_pointer, Call,
  set_string, free_string, step, run,
}
use moxt_cpp.StringCache.Owned.{Owns, delete-Owns, store-Owns}
use moxt_cpp.Prelude.Put.{put, put_here, put_there, put_cases, lookup-insert-put, lookup-erase-put}
use moxt_cpp.Prelude.{
  ◌≡◌, refl, sym, ◌∙◌, ap, inl, inr, ℕ, Bool, true, false, Option, none, some, List, [], ◌∷◌, Bytes,
}
use moxt_cpp.Prelude.Outcome.{ok, ◌>>=◌}
use moxt_cpp.Prelude.Assoc

-- The text that each key has after calls, the latest first.
unfoldable pub texts : List Call → ℕ → Option Bytes
texts [] = λ key. none
texts (set_string k s ∷ calls) = put k (some s) (texts calls)
texts (free_string k ∷ calls) = put k none (texts calls)

-- A cache whose strings are owned by its keys, with the texts of `view`.
abbrev pub Sound : Cache → (ℕ → Option Bytes) → Type 0
Sound c view = Owns (λ k. pointer k c) (λ p. at p c.memory) c.memory.next_address view

same_owner :
    {f g : ℕ → Option ℕ} {h i : ℕ → Option Bytes} {n : ℕ} {v w : ℕ → Option Bytes}
    → ((k : ℕ) → f k ≡ g k)
    → ((p : ℕ) → h p ≡ i p)
    → ((k : ℕ) → v k ≡ w k)
    → Owns g i n v
    → Owns f h n w
same_owner {n} a b c o =
    subst {A = (ℕ → Option ℕ) × (ℕ → Option Bytes) × (ℕ → Option Bytes)} (λ t. Owns t.0 t.1 n t.2)
      (λ j. (λ k. sym (a k) j, λ p. sym (b p) j, λ k. c k j)) o

empty-Sound : Sound empty (λ key. none)
unfolding pointer at Assoc.lookup
empty-Sound = record {
  holds = λ key. refl;
  alone = λ j k p e _. absurd (some-ne-none _ (sym e));
  alive = λ key p e. absurd (some-ne-none _ (sym e));
  owned = λ p s e. absurd (some-ne-none _ (sym e));
  unused = λ p h. refl;
}

put_twice :
    {A : Type 0} (key : ℕ) (o q : Option A) (f : ℕ → Option A) (k : ℕ)
    → put key o (put key q f) k ≡ put key o f k
put_twice key o q f k = elim (put_cases key k o f) [
  | inl r ↦ put_here key k o (put key q f) r.0 ∙ sym r.1
  | inr r ↦ put_there key k o (put key q f) r.0 ∙ put_there key k q f r.0 ∙ sym r.1
]

store_new-Sound :
    (key : ℕ) (s : Bytes) (c : Cache) (view : ℕ → Option Bytes)
    → Sound c view
    → pointer key c ≡ none
    → Sound (store key s c.memory c) (put key (some s) view)
unfolding store new_string pointer at
store_new-Sound key s c view o e =
    same_owner (lookup-insert-put key c.memory.next_address c.pointers)
      (lookup-insert-put c.memory.next_address s c.memory.strings) (λ k. refl)
      (store-Owns o key s e)

store_again-Sound :
    (key : ℕ) (s : Bytes) (c : Cache) (view : ℕ → Option Bytes) (p : ℕ)
    → Sound c view
    → pointer key c ≡ some p
    → Sound (store key s (drop_string p c.memory) c) (put key (some s) view)
unfolding store new_string pointer at drop_string
store_again-Sound key s c view p o e =
    let n = c.memory.next_address in
    same_owner
      (λ k.
        lookup-insert-put key n c.pointers k
        ∙ sym (put_twice key (some n) none (λ j. pointer j c) k))
      (λ q.
        lookup-insert-put n s (Assoc.erase ℕ_discrete p c.memory.strings) q
        ∙ ap (λ f. put n (some s) f q) (λ i j. lookup-erase-put p c.memory.strings j i))
      (put_twice key (some s) none view)
      (store-Owns (delete-Owns o key p e) key s (put_here key key none (λ j. pointer j c) refl))

release-Sound :
    (key : ℕ) (c : Cache) (view : ℕ → Option Bytes) (p : ℕ)
    → Sound c view
    → pointer key c ≡ some p
    → Sound
        (record c {
          pointers = Assoc.erase ℕ_discrete key c.pointers;
          memory = drop_string p c.memory;
        })
        (put key none view)
unfolding pointer at drop_string
release-Sound key c view p o e =
    same_owner (lookup-erase-put key c.pointers) (lookup-erase-put p c.memory.strings) (λ k. refl)
      (delete-Owns o key p e)

-- The cache after a call, and the answer of the call.
replace-Sound :
    (key : ℕ) (s : Bytes) (c : Cache) (view : ℕ → Option Bytes) (o : Option ℕ)
    → Sound c view
    → pointer key c ≡ o
    → (c' : Cache) × (replace key s o c ≡ ok c') × Sound c' (put key (some s) view)
unfolding delete
replace-Sound key s c view none o e =
    (store key s c.memory c, refl, store_new-Sound key s c view o e)
replace-Sound key s c view (some p) o e = (
  store key s (drop_string p c.memory) c,
  rw ((o.alive key p e).1) refl,
  store_again-Sound key s c view p o e,
)

unfoldable pub is_some : Option Bytes → Bool
is_some none = false
is_some (some s) = true

read_pointer-Sound :
    (key : ℕ) (c : Cache) (view : ℕ → Option Bytes) (o : Option ℕ)
    → Sound c view
    → pointer key c ≡ o
    → read_pointer o c ≡ ok (view key)
read_pointer-Sound key c view none o e = rw (← o.holds key, e) refl
read_pointer-Sound key c view (some p) o e =
    let a = o.alive key p e in rw (← o.holds key, e, a.1) refl

nothing_to_free :
    (key : ℕ) (c : Cache) (view : ℕ → Option Bytes)
    → Sound c view
    → pointer key c ≡ none
    → (k : ℕ) → view k ≡ put key none view k
nothing_to_free key c view o e k = elim (put_cases key k none view) [
  | inl r ↦ rw (r.1, ← r.0, ← o.holds key, e) refl
  | inr r ↦ sym r.1
]

release_call-Sound :
    (key : ℕ) (c : Cache) (view : ℕ → Option Bytes) (o : Option ℕ)
    → Sound c view
    → pointer key c ≡ o
    → (c' : Cache) × (release key o c ≡ ok (c', is_some (view key))) × Sound c' (put key none view)
unfolding delete is_some
release_call-Sound key c view none o e = (
  c,
  rw (← o.holds key, e) refl,
  same_owner (λ k. refl) (λ q. refl) (nothing_to_free key c view o e) o,
)
release_call-Sound key c view (some p) o e =
    let a = o.alive key p e in (_, rw (← o.holds key, e, a.1) refl, release-Sound key c view p o e)

-- A cache in order, and each call on it: the call returns, with this answer, and the cache is in
-- order again.
set-Sound :
    (key : ℕ) (s : Bytes) (c : Cache) (view : ℕ → Option Bytes)
    → Sound c view
    → (c' : Cache) × (seq_set_string_in_cache key s c ≡ ok (c', some s))
      × Sound c' (put key (some s) view)
unfolding seq_set_string_in_cache
set-Sound key s c view o =
    let r = replace-Sound key s c view (pointer key c) o refl in
    (
      r.0,
      rw
          (
            r.1,
            read_pointer-Sound key r.0 (put key (some s) view) (pointer key r.0) r.2 refl,
            put_here key key (some s) view refl,
          )
          refl,
      r.2,
    )

free-Sound :
    (key : ℕ) (c : Cache) (view : ℕ → Option Bytes)
    → Sound c view
    → (c' : Cache) × (seq_free_string_in_cache key c ≡ ok (c', is_some (view key)))
      × Sound c' (put key none view)
unfolding seq_free_string_in_cache
free-Sound key c view o = release_call-Sound key c view (pointer key c) o refl

step-Sound :
    (call : Call) (calls : List Call) (c : Cache)
    → Sound c (texts calls)
    → (c' : Cache) × (step call c ≡ ok c') × Sound c' (texts (call ∷ calls))
unfolding texts
step-Sound (set_string key s) calls c o =
    let r = set-Sound key s c (texts calls) o in (r.0, rw (r.1) refl, r.2)
step-Sound (free_string key) calls c o =
    let r = free-Sound key c (texts calls) o in (r.0, rw (r.1) refl, r.2)

-- Any sequence of calls that set and free strings ends without a double release or a read of a
-- released string, and in the cache it leaves different keys have different strings, every key
-- leads to a live string with the text last set for it, and no string is live without a key.
pub run-Sound : (calls : List Call) → (c : Cache) × (run calls ≡ ok c) × Sound c (texts calls)
unfolding run texts
run-Sound [] = (empty, refl, same_owner (λ k. refl) (λ p. refl) (λ k. refl) empty-Sound)
run-Sound (call ∷ calls) =
    let r = run-Sound calls in let t = step-Sound call calls r.0 r.2 in (t.0, rw (r.1) t.1, t.2)

-- After any sequence of sets and frees, reading a key gives the text last set for it and not freed
-- since, or the null pointer; freeing it answers whether there is such a text; and setting it
-- answers with the new text, whatever was there.
pub answers-run :
    (calls : List Call) (key : ℕ) (s : Bytes)
    → ((run calls >>= λ c. seq_get_string_in_cache key c) ≡ ok (texts calls key))
      × ((run calls >>= λ c. seq_free_string_in_cache key c >>= λ r. ok r.1)
          ≡ ok (is_some (texts calls key)))
      × ((run calls >>= λ c. seq_set_string_in_cache key s c >>= λ r. ok r.1) ≡ ok (some s))
unfolding seq_get_string_in_cache
answers-run calls key s =
    let r = run-Sound calls in
    let f = free-Sound key r.0 (texts calls) r.2 in
    let w = set-Sound key s r.0 (texts calls) r.2 in
    (
      rw (r.1) (read_pointer-Sound key r.0 (texts calls) (pointer key r.0) r.2 refl),
      rw (r.1, f.1) refl,
      rw (r.1, w.1) refl,
    )
