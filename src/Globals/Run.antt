-- ===== src/Globals/Run.antt =====
-- moxt/libmisc.cpp: what the global maps give after any sequence of calls.
use native.Mathlib.Decide.{ℕ_discrete}
use moxt_cpp.Globals.{
  seq_set_global_int, seq_get_global_int, seq_set_global_string, seq_get_global_string, int_or_zero,
  length_or_zero, Call, set_int, set_string, run,
}
use moxt_cpp.Prelude.{◌≡◌, refl, ◌∙◌, ap, ℕ, Option, none, some, List, [], ◌∷◌, Bytes}
use moxt_cpp.Prelude.Assoc
use moxt_cpp.Prelude.Put.{put, lookup-insert-put}

-- The number and the text last set for each key.
unfoldable pub last_int : List Call → ℕ → Option ℕ
last_int [] = λ key. none
last_int (set_int k v ∷ calls) = put k (some v) (last_int calls)
last_int (set_string k s ∷ calls) = last_int calls

unfoldable pub last_string : List Call → ℕ → Option Bytes
last_string [] = λ key. none
last_string (set_int k v ∷ calls) = last_string calls
last_string (set_string k s ∷ calls) = put k (some s) (last_string calls)

ints-run :
    (calls : List Call) (key : ℕ)
    → Assoc.lookup ℕ_discrete key (run calls).ints ≡ last_int calls key
unfolding run last_int seq_set_global_int seq_set_global_string Assoc.lookup
ints-run [] key = refl
ints-run (set_int k v ∷ calls) key =
    lookup-insert-put k v (run calls).ints key
    ∙ ap (λ f. put k (some v) f key) (λ i j. ints-run calls j i)
ints-run (set_string k s ∷ calls) key = ints-run calls key

strings-run :
    (calls : List Call) (key : ℕ)
    → Assoc.lookup ℕ_discrete key (run calls).strings ≡ last_string calls key
unfolding run last_string seq_set_global_int seq_set_global_string Assoc.lookup
strings-run [] key = refl
strings-run (set_int k v ∷ calls) key = strings-run calls key
strings-run (set_string k s ∷ calls) key =
    lookup-insert-put k s (run calls).strings key
    ∙ ap (λ f. put k (some s) f key) (λ i j. strings-run calls j i)

-- After any sequence of sets of both kinds, a key gives the number last set for it, or 0, and the
-- text last set for it with its length, or the null pointer and 0; numbers and texts under the same
-- key do not meet.
globals-run :
    (calls : List Call) (key : ℕ)
    → (seq_get_global_int key (run calls) ≡ int_or_zero (last_int calls key))
      × (seq_get_global_string key (run calls)
          ≡ (last_string calls key, length_or_zero (last_string calls key)))
unfolding seq_get_global_int seq_get_global_string
globals-run calls key =
    (ap int_or_zero (ints-run calls key), ap (λ o. (o, length_or_zero o)) (strings-run calls key))
