-- ===== src/CurlClient/Requests.antt =====
-- moxt/cclient.cpp: what a program that makes requests sends and gets.
use moxt_cpp.Decimal.{to_string}
use moxt_cpp.StringMap.{c_string}
use moxt_cpp.CurlClient.Handles.{Curl, Method, delete, get, head, post, put}
use moxt_cpp.CurlClient.{
  to_u64, to_i64, show_long, CHttpResponse, CClient, Sent, Reply, append_headers,
  append_body_headers, perform, perform_test, debugged, responded_test, test_headers, do_request,
  do_request_test, verb_of, copied_out, seq_cclient_do_request,
}
use moxt_cpp.Prelude.{
  ◌≡◌, refl, sym, ◌∙◌, ap, ℕ, Bool, true, false, none, some, List, [], ◌∷◌, ◌++◌, append-nil,
  append_assoc, Bytes, codes, length, take, take_all, length-take, ltb, inl, inr, Bool-cases, arith,
  All, if◌then◌else◌,
}
use moxt_cpp.Prelude.Int.{ℤ, pos, negsuc, fits_i64, eqb_ℤ}
use moxt_cpp.Prelude.Outcome.{Outcome, ok, ◌>>=◌}

pub record Request : Type 0 where
  pub client : CClient
  pub path : Bytes
  pub headers : List (Bytes × Bytes)
  pub body : Bytes
  pub reply : Reply

-- A request by the number of its verb, with the room for its answer and whether it is verbose, or one
-- of `doRequestTest`.
pub data Call : Type 0 where
  requesting : Request → ℤ → ℕ → Bool → Call
  testing : Request → Method → Call

pub data Answer : Type 0 where
  requested : ℤ → Bytes → ℕ → Sent → Answer
  tested : CHttpResponse → Sent → Answer

module _ (c : Curl) where
  unfoldable pub step : Call → c.Pool → Outcome (Answer × c.Pool)
  step (requesting r verb res_len verbose) p = do
    a ← seq_cclient_do_request c r.client r.path verb r.headers r.body res_len verbose r.reply p
    ok (requested a.0 a.1 a.2 a.3, a.4)
  step (testing r verb) p = do
    a ← do_request_test c r.client r.path verb r.headers r.body r.reply p
    ok (tested a.0 a.1, a.2)

  -- The first call first.
  unfoldable pub run : List Call → c.Pool → Outcome (List Answer × c.Pool)
  run [] p = ok ([], p)
  run (k ∷ ks) p = do a ← step k p; rest ← run ks a.1; ok (a.0 ∷ rest.0, rest.1)

abbrev pub has_body : Method → Bool
has_body delete = false
has_body get = false
has_body head = false
has_body post = true
has_body put = true

-- A request as it goes out: its own headers, and those that say how long its body is.
abbrev pub expected : Bytes → Method → List (Bytes × Bytes) → List (Bytes × Bytes) → Bytes → Sent
expected url verb headers extra body = record {
  method = verb;
  url = c_string url;
  fields = headers ++ (if has_body verb then extra else []);
  payload = if has_body verb then some body else none;
  timeout = 5000000;
}

abbrev pub body_headers : Bytes → List (Bytes × Bytes)
body_headers body =
    (codes "Expect", [])
    ∷ (codes "Transfer-Encoding", [])
    ∷ (codes "Content-Length", to_string (length body))
    ∷ []

-- The reply where its result is 200, or a message that has it.
abbrev pub judged : Reply → CHttpResponse
judged r =
    if eqb_ℤ r.ret (pos 200) then record { status_code = 200; body = r.written } else record {
      status_code = 500;
      body = codes "Request failed status=" ++ show_long r.ret ++ codes " body=" ++ r.written;
    }

-- The answer to a call, which is the call's own, whatever was called before.
abbrev pub answer : Call → Answer
answer (requesting r verb res_len verbose) =
    requested r.reply.ret (take res_len r.reply.written) (length (take res_len r.reply.written))
      (expected (r.client.base_url ++ r.path) (verb_of verb) r.headers (body_headers r.body) r.body)
answer (testing r verb) = tested (judged r.reply) (
    expected (codes "https://" ++ r.client.host ++ r.path) verb
      ((codes "Host", r.client.host) ∷ (codes "User-Agent", codes "xt/1.0.1") ∷ r.headers) []
      r.body)

abbrev pub answers : List Call → List Answer
answers [] = []
answers (k ∷ ks) = answer k ∷ answers ks

-- The result of a transfer is a `long`.
abbrev pub Fits : Call → Type 0
Fits (requesting r verb res_len verbose) = fits_i64 r.reply.ret ≡ true
Fits (testing r verb) = Unit

to_i64-to_u64 : (z : ℤ) → fits_i64 z ≡ true → to_i64 (to_u64 z) ≡ z
to_i64-to_u64 (pos n) e = ground arith
to_i64-to_u64 (negsuc n) e = ground arith

to_u64_success : (z : ℤ) → eqb_ℤ z (pos 200) ≡ true → to_u64 z ≡ 200
to_u64_success (pos n) e = let h : n ≡ 200 = ground arith in rw h refl
to_u64_success (negsuc n) e = ground arith

responded_test-judged : (r : Reply) → responded_test r ≡ judged r
responded_test-judged r = elim (Bool-cases (eqb_ℤ r.ret (pos 200))) [
  | inl e ↦ rw (e, to_u64_success r.ret e) refl
  | inr e ↦ rw e refl
]

copied_out-take : (body : Bytes) (n : ℕ) → copied_out body n ≡ (take n body, length (take n body))
copied_out-take body n = elim (Bool-cases (ltb (length body) n)) [
  | inl e ↦ rw (e, take_all n body (ground arith)) refl
  | inr e ↦ rw (e, length-take n body (ground arith)) refl
]

module _ (c : Curl) where
  headers-append_headers :
      (hs : List (Bytes × Bytes)) (h : c.Handle)
      → c.headers (append_headers c hs h) ≡ c.headers h ++ hs
  headers-append_headers [] h = sym (append-nil (c.headers h))
  headers-append_headers ((name, value) ∷ hs) h =
      headers-append_headers hs (c.append_header name value h)
      ∙ ap (λ xs. xs ++ hs) (c.headers-append_header name value h)
      ∙ append_assoc (c.headers h) ((name, value) ∷ []) hs

  headers-append_body_headers :
      (body : Bytes) (h : c.Handle)
      → c.headers (append_body_headers c body h) ≡ c.headers h ++ body_headers body
  headers-append_body_headers body h = headers-append_headers (body_headers body) h

  headers-debugged : (debug : Bool) (h : c.Handle) → c.headers (debugged c debug h) ≡ c.headers h
  headers-debugged true h = c.headers-set_debug h
  headers-debugged false h = refl

  -- What a transfer sends, given the headers that the handle has.
  perform-expected :
      (verb : Method) (url body : Bytes) (h : c.Handle) (hs : List (Bytes × Bytes))
      → c.headers h ≡ hs
      → (perform c verb url body h).0 ≡ expected url verb hs (body_headers body) body
  perform-expected delete url body h hs e = rw (e, append-nil hs) refl
  perform-expected get url body h hs e = rw (e, append-nil hs) refl
  perform-expected head url body h hs e = rw (e, append-nil hs) refl
  perform-expected post url body h hs e = rw (headers-append_body_headers body h, e) refl
  perform-expected put url body h hs e = rw (headers-append_body_headers body h, e) refl

  perform_test-expected :
      (verb : Method) (url body : Bytes) (h : c.Handle) (hs : List (Bytes × Bytes))
      → c.headers h ≡ hs
      → (perform_test c verb url body h).0 ≡ expected url verb hs [] body
  perform_test-expected delete url body h hs e = rw (e, append-nil hs) refl
  perform_test-expected get url body h hs e = rw (e, append-nil hs) refl
  perform_test-expected head url body h hs e = rw (e, append-nil hs) refl
  perform_test-expected post url body h hs e = rw (e, append-nil hs) refl
  perform_test-expected put url body h hs e = rw (e, append-nil hs) refl

  -- The headers of a handle that `doRequest` and `doRequestTest` set up.
  headers-set_up :
      (debug : Bool) (hs : List (Bytes × Bytes)) (h : c.Handle)
      → c.headers (append_headers c hs (debugged c debug (c.cleared h))) ≡ hs
  headers-set_up debug hs h =
      headers-append_headers hs (debugged c debug (c.cleared h))
      ∙ ap (λ xs. xs ++ hs) (headers-debugged debug (c.cleared h) ∙ c.headers-cleared h)

  headers-set_up_test :
      (client : CClient) (hs : List (Bytes × Bytes)) (h : c.Handle)
      → c.headers (append_headers c hs (test_headers c client (c.set_debug (c.cleared h))))
        ≡ (codes "Host", client.host) ∷ (codes "User-Agent", codes "xt/1.0.1") ∷ hs
  headers-set_up_test client hs h =
      headers-set_up true
        ((codes "Host", client.host) ∷ (codes "User-Agent", codes "xt/1.0.1") ∷ hs) h

  module _ (take_some : (p : c.Pool) → (h : c.Handle) × ((c.take p).0 ≡ some h)) where
    step-answer : (k : Call) (p : c.Pool) → Fits k → (u : c.Pool) × (step c k p ≡ ok (answer k, u))
    unfolding step seq_cclient_do_request do_request do_request_test
    step-answer (requesting r verb res_len verbose) p f =
        let (h, e) = take_some p in
        let url = r.client.base_url ++ r.path in
        let g = append_headers c r.headers (debugged c verbose (c.cleared h)) in
        let s =
          perform-expected (verb_of verb) url r.body g r.headers
            (headers-set_up verbose r.headers h) in
        (
          c.put_back (perform c (verb_of verb) url r.body g).1 (c.take p).1,
          rw (e, to_i64-to_u64 r.reply.ret f, copied_out-take r.reply.written res_len, s) refl,
        )
    step-answer (testing r verb) p f =
        let (h, e) = take_some p in
        let url = codes "https://" ++ r.client.host ++ r.path in
        let g = append_headers c r.headers (test_headers c r.client (c.set_debug (c.cleared h))) in
        let s =
          perform_test-expected verb url r.body g
            ((codes "Host", r.client.host) ∷ (codes "User-Agent", codes "xt/1.0.1") ∷ r.headers)
            (headers-set_up_test r.client r.headers h) in
        (
          c.put_back (perform_test c verb url r.body g).1 (c.take p).1,
          rw (e, s, responded_test-judged r.reply) refl,
        )

    -- For any calls from any pool of used handles that gives a handle each time, with results that fit
    -- a `long`: every request goes out with its own headers and those of its body only, and every call
    -- answers with its own reply: the result, the part of the text that there is room for, and its
    -- length.
    pub run-answers :
        (ks : List Call) (p : c.Pool)
        → All Fits ks
        → (u : c.Pool) × (run c ks p ≡ ok (answers ks, u))
    unfolding run
    run-answers [] p f = (p, refl)
    run-answers (k ∷ ks) p (f, fs) =
        let (u, e) = step-answer k p f in let (v, g) = run-answers ks u fs in (v, rw (e, g) refl)
