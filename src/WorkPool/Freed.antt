-- ===== src/WorkPool/Freed.antt =====
-- moxt/libthread.cpp: what `free_far` makes of the heap, and where a pool frees what is not live.
use mathlib.Core.Option.{some-injective}
use moxt_cpp.Count.{one, live, one_same, live-put_new, live-put-none, live-some}
use moxt_cpp.Far.{FuncArgResult}
use moxt_cpp.WorkPool.{
  Heap, Entry, Callback, free_far, called_back, seq_photon_workpool_async_call_with_cb,
  seq_photon_workpool_call_with_cb,
}
use moxt_cpp.WorkPool.Tasks.{Work, new_far}
use moxt_cpp.WebSocket.Events.{remove_at}
use moxt_cpp.Prelude.{
  ◌≡◌, refl, ◌∙◌, ap, ℕ, zero, suc, ◌+◌, ◌≤◌, Option, none, some, List, [], ◌∷◌, get_elem?, inl,
  inr, ◌⊎◌, arith,
}
use moxt_cpp.Prelude.Outcome.{Outcome, ok, fault, ◌>>=◌, dangling}
use moxt_cpp.Prelude.Put.{put, put_cases, put_there}

-- How often a pointer is `c`.
abbrev pub got : Option ℕ → ℕ → ℕ
got none c = 0
got (some far) c = one far c

abbrev pub gots : List (Option ℕ) → ℕ → ℕ
gots [] c = 0
gots (o ∷ os) c = got o c + gots os c

abbrev pub args : List (Work × ℕ) → ℕ → ℕ
args [] c = 0
args (task ∷ tasks) c = one task.1 c + args tasks c

pub args-remove_at :
    (c n : ℕ) (task : Work × ℕ) (tasks : List (Work × ℕ))
    → get_elem? tasks n ≡ some task
    → args tasks c ≡ one task.1 c + args (remove_at n tasks) c
unfolding remove_at
args-remove_at c n task [] e = absurd cc
args-remove_at c zero task (u ∷ tasks) e =
    ap (λ z. one z.1 c + args tasks c) (some-injective u task e)
args-remove_at c (suc n) task (u ∷ tasks) e = omega (arith, args-remove_at c n task tasks e)

abbrev pub Fresh : Heap → Type 0
Fresh h = (c : ℕ) → h.next_far ≤ c → h.fars c ≡ none

-- A heap on which `o` is no longer live, and all else is as before.
pub record Freed (o : Option ℕ) (h : Heap) (m : Outcome Heap) : Type 0 where
  pub after : Heap
  pub ends : m ≡ ok after
  pub less : (c : ℕ) → live (after.fars c) + got o c ≡ live (h.fars c)
  pub fresh : Fresh after

pub free_far-Freed :
    (o : Option ℕ) (h : Heap)
    → Fresh h
    → ((c : ℕ) → got o c ≤ live (h.fars c))
    → Freed o h (free_far o h)
unfolding free_far
free_far-Freed none h f l = record { after = h; ends = refl; less = λ c. omega arith; fresh = f }
free_far-Freed (some far) h f l =
    let o = one_same far far refl in
    let (entries, e) = live-some (h.fars far) (omega (arith, l far)) in
    record {
      after = record h { fars = put far none h.fars };
      ends = rw e refl;
      less = λ c. live-put-none far c h.fars entries e;
      fresh = λ c g. elim (put_cases far c none h.fars) [ inl (d, p) ↦ p | inr (d, p) ↦ p ∙ f c g ];
    }

-- Both of two pointers freed.
pub record Both (a r : Option ℕ) (h : Heap) : Type 0 where
  pub after : Heap
  pub ends : (do t ← free_far a h; free_far r t) ≡ ok after
  pub less : (c : ℕ) → live (after.fars c) + got a c + got r c ≡ live (h.fars c)
  pub fresh : Fresh after

pub free-Both :
    (a r : Option ℕ) (h : Heap)
    → Fresh h
    → ((c : ℕ) → got a c + got r c ≤ live (h.fars c))
    → Both a r h
free-Both a r h f l =
    let u = free_far-Freed a h f (λ c. omega (arith, l c)) in
    let w = free_far-Freed r u.after u.fresh (λ c. omega (arith, l c, u.less c)) in
    record {
      after = w.after;
      ends = rw u.ends w.ends;
      less = λ c. omega (arith, w.less c, u.less c);
      fresh = w.fresh;
    }

pub new_far-live :
    (entries : FuncArgResult) (h : Heap)
    → Fresh h
    → (c : ℕ) → live ((new_far entries h).fars c) ≡ live (h.fars c) + one h.next_far c
new_far-live entries h f c = live-put_new h.next_far c h.fars entries (f h.next_far (omega arith))

pub new_far-Fresh : (entries : FuncArgResult) (h : Heap) → Fresh h → Fresh (new_far entries h)
new_far-Fresh entries h f c l =
    put_there h.next_far c (some entries) h.fars (λ e. absurd (omega arith)) ∙ f c (omega arith)

-- A task whose result is its argument, or an object that the callback freed: a call that waits and
-- has this callback, or the null pointer for none, frees an object that is not live, with the
-- argument live before; the call without waiting does not.
pub result_gone-dangling :
    (entry : Entry) (cb : Option Callback) (arg result : ℕ) (h : Heap)
    → (entry (some arg) h).0 ≡ some result
    → live ((called_back cb (some result) (entry (some arg) h).1).fars arg) ≡ 1
    → (arg ≡ result) ⊎ ((called_back cb (some result) (entry (some arg) h).1).fars result ≡ none)
    → (seq_photon_workpool_call_with_cb entry (some arg) cb h ≡ fault dangling)
      × ((t : Heap) × (seq_photon_workpool_async_call_with_cb entry (some arg) cb h ≡ ok t))
unfolding free_far seq_photon_workpool_call_with_cb seq_photon_workpool_async_call_with_cb
result_gone-dangling entry cb arg result h e l gone =
    let heap = called_back cb (some result) (entry (some arg) h).1 in
    let (entries, f) = live-some (heap.fars arg) (omega arith) in
    let again : put arg none heap.fars result ≡ none = elim (put_cases arg result none heap.fars) [
      | inl (d, p) ↦ p
      | inr (d, p) ↦ elim gone [ inl g ↦ absurd (d g) | inr g ↦ p ∙ g ]
    ] in
    (rw (e, f, again) refl, (record heap { fars = put arg none heap.fars }, rw (e, f) refl))
