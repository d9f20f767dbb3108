-- ===== src/CurlClient.antt =====
-- moxt/cclient.hpp and moxt/cclient.cpp: `CClient`, requests through photon's cURL with a pool of
-- handles (CurlClient/Handles). A map of headers is its entries in the order of the map. What the server
-- answers is an argument. A string that is passed as a `const char *` ends at its first zero byte.
pub mod Handles
pub mod Requests
mod Tests
use moxt_cpp.StringMap.{c_string}
use moxt_cpp.Decimal.{to_string}
use moxt_cpp.CurlClient.Handles.{Curl, Method, delete, get, head, post, put}
use moxt_cpp.Prelude.{
  ℕ, suc, ◌+◌, ◌-◌, ◌^◌, ◌%◌, Bool, true, false, Option, none, some, List, [], ◌∷◌, ◌++◌, Bytes,
  codes, length, take, ltb, ◌==◌, if◌then◌else◌,
}
use moxt_cpp.Prelude.Int.{ℤ, pos, negsuc, eqb_ℤ}
use moxt_cpp.Prelude.Outcome.{Outcome, ok, fault, null_pointer, bad_index, ◌>>=◌}

-- `static_cast<uint64_t>` of a `long`, and back.
abbrev pub to_u64 : ℤ → ℕ
to_u64 (pos n) = n % 2 ^ 64
to_u64 (negsuc n) = 2 ^ 64 - 1 - n % 2 ^ 64

abbrev pub to_i64 : ℕ → ℤ
to_i64 n = if ltb n (2 ^ 63) then pos n else negsuc (2 ^ 64 - 1 - n)

-- `fmt` of a `long`
abbrev pub show_long : ℤ → Bytes
show_long (pos n) = to_string n
show_long (negsuc n) = codes "-" ++ to_string (suc n)

pub record CHttpResponse : Type 0 where
  pub status_code : ℕ
  pub body : Bytes

-- `baseUrl` and `host`
pub record CClient : Type 0 where
  pub base_url : Bytes
  pub host : Bytes

-- What a transfer sends, and its timeout in microseconds.
pub record Sent : Type 0 where
  pub method : Method
  pub url : Bytes
  pub fields : List (Bytes × Bytes)
  pub payload : Option Bytes
  pub timeout : ℕ

-- The result of a transfer and the text that it writes.
pub record Reply : Type 0 where
  pub ret : ℤ
  pub written : Bytes

abbrev pub timeout : ℕ
timeout = 5000000

abbrev pub responded : Reply → CHttpResponse
responded r = record { status_code = to_u64 r.ret; body = r.written }

abbrev pub responded_test : Reply → CHttpResponse
responded_test r = if eqb_ℤ r.ret (pos 200) then responded r else record {
  status_code = 500;
  body = codes "Request failed status=" ++ show_long r.ret ++ codes " body=" ++ r.written;
}

module _ (c : Curl) where
  -- `get_cURL` uses the handle before it is tested for null.
  abbrev pub get_curl : Option c.Handle × c.Pool → Outcome (c.Handle × c.Pool)
  get_curl (none, p) = fault null_pointer
  get_curl (some h, p) = ok (c.cleared h, p)

  abbrev pub append_headers : List (Bytes × Bytes) → c.Handle → c.Handle
  append_headers [] h = h
  append_headers ((name, value) ∷ rest) h = append_headers rest (c.append_header name value h)

  -- The headers that `doRequest` adds to a request with a body.
  abbrev pub append_body_headers : Bytes → c.Handle → c.Handle
  append_body_headers body h =
      c.append_header (codes "Content-Length") (to_string (length body))
        (c.append_header (codes "Transfer-Encoding") [] (c.append_header (codes "Expect") [] h))

  -- A transfer: what it sends, and the handle afterwards.
  abbrev pub transfer : Method → Bytes → Option Bytes → c.Handle → Sent × c.Handle
  transfer method url payload h = (
    record {
      method = method;
      url = c_string url;
      fields = c.headers h;
      payload = payload;
      timeout = timeout;
    },
    c.transferred method (c_string url) h,
  )

  abbrev pub perform : Method → Bytes → Bytes → c.Handle → Sent × c.Handle
  perform delete url body h = transfer delete url none h
  perform get url body h = transfer get url none h
  perform head url body h = transfer head url none h
  perform post url body h = transfer post url (some body) (append_body_headers body h)
  perform put url body h = transfer put url (some body) (append_body_headers body h)

  abbrev pub perform_test : Method → Bytes → Bytes → c.Handle → Sent × c.Handle
  perform_test delete url body h = transfer delete url none h
  perform_test get url body h = transfer get url none h
  perform_test head url body h = transfer head url none h
  perform_test post url body h = transfer post url (some body) h
  perform_test put url body h = transfer put url (some body) h

  abbrev pub debugged : Bool → c.Handle → c.Handle
  debugged true h = c.set_debug h
  debugged false h = h

  -- `DEFER(release_cURL(client))`
  abbrev pub released : CHttpResponse → Sent × c.Handle → c.Pool → CHttpResponse × Sent × c.Pool
  released response (sent, h) p = (response, sent, c.put_back h p)

  unfoldable pub do_request :
      CClient
      → Bytes
      → Method
      → List (Bytes × Bytes)
      → Bytes
      → Bool
      → Reply
      → c.Pool
      → Outcome (CHttpResponse × Sent × c.Pool)
  do_request client path verb headers body debug r p = do
    g ← get_curl (c.take p)
    let h = append_headers headers (debugged debug g.0)
    ok (released (responded r) (perform verb (client.base_url ++ path) body h) g.1)

  abbrev pub test_headers : CClient → c.Handle → c.Handle
  test_headers client h =
      c.append_header (codes "User-Agent") (codes "xt/1.0.1")
        (c.append_header (codes "Host") client.host h)

  unfoldable pub do_request_test :
      CClient
      → Bytes
      → Method
      → List (Bytes × Bytes)
      → Bytes
      → Reply
      → c.Pool
      → Outcome (CHttpResponse × Sent × c.Pool)
  do_request_test client path verb headers body r p = do
    g ← get_curl (c.take p)
    let h = append_headers headers (test_headers client (c.set_debug g.0))
    ok (
        released (responded_test r)
          (perform_test verb (codes "https://" ++ client.host ++ path) body h) g.1)

-- The number of a verb; any other one is GET.
unfoldable pub verb_of : ℤ → Method
verb_of v =
    if eqb_ℤ v (pos 1)
    then delete
    else if eqb_ℤ v (pos 2)
    then get
    else if eqb_ℤ v (pos 3)
    then head
    else if eqb_ℤ v (pos 4)
    then post
    else if eqb_ℤ v (pos 5)
    then put
    else get

-- What `res` holds, and `*n`.
abbrev pub copied_out : Bytes → ℕ → Bytes × ℕ
copied_out body res_len =
    if ltb (length body) res_len then (body, length body) else (take res_len body, res_len)

module _ (c : Curl) where
  -- The status, `res`, `*n`, and what was sent, with the pool afterwards.
  unfoldable pub seq_cclient_do_request :
      CClient
      → Bytes
      → ℤ
      → List (Bytes × Bytes)
      → Bytes
      → ℕ
      → Bool
      → Reply
      → c.Pool
      → Outcome (ℤ × Bytes × ℕ × Sent × c.Pool)
  seq_cclient_do_request client path verb headers body res_len verbose r p = do
    a ← do_request c client path (verb_of verb) headers body verbose r p
    let out = copied_out a.0.body res_len
    ok (to_i64 a.0.status_code, out.0, out.1, a.1, a.2)
