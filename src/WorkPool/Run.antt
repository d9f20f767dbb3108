-- ===== src/WorkPool/Run.antt =====
-- moxt/libthread.cpp: every argument that is given to a pool is freed once, and every result but
-- those that a call without waiting leaves to its callback.
use moxt_cpp.Count.{one, live}
use moxt_cpp.WorkPool.{
  Heap, Entry, Callback, called_back, seq_photon_workpool_async_call,
  seq_photon_workpool_async_call_with_cb, seq_photon_workpool_call,
  seq_photon_workpool_call_with_cb,
}
use moxt_cpp.WorkPool.Tasks.{
  Work, plain, with_cb, Event, calling, giving, working, Program, new_program, new_far, call,
  async_call, handed_over, work_at, step, run,
}
use moxt_cpp.WebSocket.Events.{remove_at}
use moxt_cpp.Prelude.{
  ◌≡◌, refl, ◌∙◌, ℕ, ◌+◌, ◌≤◌, Option, none, some, List, [], ◌∷◌, get_elem?, arith,
}
use moxt_cpp.Prelude.Outcome.{Outcome, ok}
use moxt_cpp.WorkPool.Freed.{
  got, gots, args, args-remove_at, Fresh, Freed, free_far-Freed, Both, free-Both, new_far-live,
  new_far-Fresh,
}

module _ (entry : ℕ → Entry) (cb : ℕ → Option Callback) where
  -- Each live object is the argument of a task that waits or was handed to a callback, and each of
  -- those is live.
  pub record Held (s : Program) : Type 0 where
    pub owners : (c : ℕ) → live (s.heap.fars c) ≡ args s.waiting c + gots s.handed c
    pub fresh : Fresh s.heap

  new_program-Held : Held new_program
  new_program-Held = record { owners = λ c. refl; fresh = λ c l. refl }

  module _
      (entry_live : (k : ℕ) (arg : Option ℕ) (h : Heap)
        → Fresh h
        → ((c : ℕ) → live ((entry k arg h).1.fars c) ≡ live (h.fars c) + got (entry k arg h).0 c)
          × Fresh (entry k arg h).1)
      (cb_live : (k : ℕ) (result : Option ℕ) (h : Heap)
        → Fresh h
        → ((c : ℕ) → live ((called_back (cb k) result h).fars c) ≡ live (h.fars c))
          × Fresh (called_back (cb k) result h)) where
    plain_Both :
        (k arg : ℕ) (h : Heap)
        → Fresh h
        → ((c : ℕ) → one arg c ≤ live (h.fars c))
        → Both (some arg) (entry k (some arg) h).0 (entry k (some arg) h).1
    plain_Both k arg h f l =
        let (e, g) = entry_live k (some arg) h f in
        free-Both (some arg) (entry k (some arg) h).0 (entry k (some arg) h).1 g
          (λ c. omega (arith, e c, l c))

    -- The heap after the callback.
    abbrev heard : ℕ → ℕ → Heap → Heap
    heard k arg h = called_back (cb k) (entry k (some arg) h).0 (entry k (some arg) h).1

    heard-live :
        (k arg : ℕ) (h : Heap)
        → Fresh h
        → ((c : ℕ)
            → live ((heard k arg h).fars c) ≡ live (h.fars c) + got (entry k (some arg) h).0 c)
          × Fresh (heard k arg h)
    heard-live k arg h f =
        let (e, g) = entry_live k (some arg) h f in
        let (d, i) = cb_live k (entry k (some arg) h).0 (entry k (some arg) h).1 g in
        (λ c. d c ∙ e c, i)

    call-Freed :
        (w : Work) (arg : ℕ) (h : Heap)
        → Fresh h
        → ((c : ℕ) → one arg c ≤ live (h.fars c))
        → Freed (some arg) h (call entry cb w arg h)
    unfolding call seq_photon_workpool_call seq_photon_workpool_call_with_cb
    call-Freed (plain k) arg h f l =
        let (e, g) = entry_live k (some arg) h f in
        let b = plain_Both k arg h f l in
        record {
          after = b.after;
          ends = b.ends;
          less = λ c. omega (arith, b.less c, e c);
          fresh = b.fresh;
        }
    call-Freed (with_cb k) arg h f l =
        let (e, g) = heard-live k arg h f in
        let b =
          free-Both (some arg) (entry k (some arg) h).0 (heard k arg h) g
            (λ c. omega (arith, e c, l c)) in
        record {
          after = b.after;
          ends = b.ends;
          less = λ c. omega (arith, b.less c, e c);
          fresh = b.fresh;
        }

    -- The heap and the results handed over after a task that waited.
    record Worked (w : Work) (arg : ℕ) (h : Heap) (handed : List (Option ℕ)) : Type 0 where
      after : Heap
      ends : async_call entry cb w arg h ≡ ok after
      less :
          (c : ℕ)
          → live (after.fars c) + one arg c + gots handed c
            ≡ live (h.fars c) + gots (handed_over entry cb w arg h handed) c
      fresh : Fresh after

    async_call-Worked :
        (w : Work) (arg : ℕ) (h : Heap) (handed : List (Option ℕ))
        → Fresh h
        → ((c : ℕ) → one arg c ≤ live (h.fars c))
        → Worked w arg h handed
    unfolding async_call seq_photon_workpool_async_call seq_photon_workpool_async_call_with_cb
    async_call-Worked (plain k) arg h handed f l =
        let (e, g) = entry_live k (some arg) h f in
        let b = plain_Both k arg h f l in
        record {
          after = b.after;
          ends = b.ends;
          less = λ c. omega (arith, b.less c, e c);
          fresh = b.fresh;
        }
    async_call-Worked (with_cb k) arg h handed f l =
        let (e, g) = heard-live k arg h f in
        let b = free_far-Freed (some arg) (heard k arg h) g (λ c. omega (arith, e c, l c)) in
        record {
          after = b.after;
          ends = b.ends;
          less = λ c. omega (arith, b.less c, e c);
          fresh = b.fresh;
        }

    -- A step that ends well.
    record Stepped (m : Outcome Program) : Type 0 where
      after : Program
      ends : m ≡ ok after
      held : Held after

    work_at-Stepped :
        (n : ℕ) (s : Program) (o : Option (Work × ℕ))
        → Held s
        → get_elem? s.waiting n ≡ o
        → Stepped (work_at entry cb o n s)
    work_at-Stepped n s none v e = record { after = s; ends = refl; held = v }
    work_at-Stepped n s (some (w, arg)) v e =
        let a = λ (c : ℕ). args-remove_at c n (w, arg) s.waiting e in
        let b =
          async_call-Worked w arg s.heap s.handed v.fresh (λ c. omega (arith, v.owners c, a c)) in
        record {
          after = record {
            heap = b.after;
            waiting = remove_at n s.waiting;
            handed = handed_over entry cb w arg s.heap s.handed;
          };
          ends = rw b.ends refl;
          held = record { owners = λ c. omega (arith, v.owners c, a c, b.less c); fresh = b.fresh };
        }

    step-Stepped : (e : Event) (s : Program) → Held s → Stepped (step entry cb e s)
    unfolding step
    step-Stepped (calling w entries) s v =
        let n = new_far-live entries s.heap v.fresh in
        let b =
          call-Freed w s.heap.next_far (new_far entries s.heap)
            (new_far-Fresh entries s.heap v.fresh) (λ c. omega (arith, n c)) in
        record {
          after = record s { heap = b.after };
          ends = rw b.ends refl;
          held = record { owners = λ c. omega (arith, v.owners c, n c, b.less c); fresh = b.fresh };
        }
    step-Stepped (giving w entries) s v =
        let n = new_far-live entries s.heap v.fresh in
        record {
          after = record s {
            heap = new_far entries s.heap;
            waiting = (w, s.heap.next_far) ∷ s.waiting;
          };
          ends = refl;
          held = record {
            owners = λ c. omega (arith, v.owners c, n c);
            fresh = new_far-Fresh entries s.heap v.fresh;
          };
        }
    step-Stepped (working n) s v = work_at-Stepped n s (get_elem? s.waiting n) v refl

    run-Stepped : (es : List Event) (s : Program) → Held s → Stepped (run entry cb es s)
    unfolding run
    run-Stepped [] s v = record { after = s; ends = refl; held = v }
    run-Stepped (e ∷ es) s v =
        let b = step-Stepped e s v in
        let w = run-Stepped es b.after b.held in
        record { after = w.after; ends = rw b.ends w.ends; held = w.held }

    -- Given that a task leaves the objects that are live and returns the null pointer or a new one,
    -- and that a callback leaves them: any calls, with the tasks that wait run in any order, free
    -- nothing twice, and at the end the live objects are the arguments of the tasks that still wait
    -- and the results that a callback of a call without waiting was given, each once.
    pub run-Held : (es : List Event) → (s : Program) × (run entry cb es new_program ≡ ok s) × Held s
    run-Held es = let b = run-Stepped es new_program new_program-Held in (b.after, b.ends, b.held)
