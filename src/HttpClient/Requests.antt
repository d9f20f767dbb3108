-- ===== src/HttpClient/Requests.antt =====
-- moxt/httpx/httpclient.hpp: which requests go over a connection whose handshake succeeded.
use moxt_cpp.HttpClient.{
  LibraryCall, set_host_name, resolve, connect_socket, handshake, write_request, read_response,
  Replies, Answer, returned, thrown, Done, handled, handled_late, shake_v0, connect_v0, shake,
  connect, exchange, perform_request, requests, after_connect, after_wait,
}
use moxt_cpp.Prelude.{
  ◌≡◌, refl, ◌∙◌, ap, Bool, true, false, not, ◌&&◌, ◌||◌, Option, none, some, List, [], ◌∷◌, ◌++◌,
  All, if◌then◌else◌, Bool-cases, inl, inr,
}

-- Whether the last connection is secure, after calls; `none` if a request was written on one that
-- is not.
unfoldable pub secure : Bool → List LibraryCall → Option Bool
secure s [] = some s
secure s (connect_socket ∷ calls) = secure false calls
secure s (handshake success ∷ calls) = secure success calls
secure s (write_request ∷ calls) = if s then secure true calls else none
secure s (_ ∷ calls) = secure s calls

abbrev pub succeeded : Answer Bool → Bool
succeeded (returned b) = b
succeeded thrown = false

abbrev and_secure : Option Bool → List LibraryCall → Option Bool
and_secure none b = none
and_secure (some s) b = secure s b

secure-append : (s : Bool) (a b : List LibraryCall) → secure s (a ++ b) ≡ and_secure (secure s a) b
unfolding secure
secure-append s [] b = refl
secure-append s (set_host_name ∷ a) b = secure-append s a b
secure-append s (resolve ∷ a) b = secure-append s a b
secure-append s (connect_socket ∷ a) b = secure-append false a b
secure-append s (handshake success ∷ a) b = secure-append success a b
secure-append true (write_request ∷ a) b = secure-append true a b
secure-append false (write_request ∷ a) b = refl
secure-append s (read_response ∷ a) b = secure-append s a b

module _ {Response : Type 0} where
  -- Whether `connect` gets as far as async_connect.
  abbrev pub starts : Replies Response → Bool
  starts r = r.host_name && r.resolved

  -- A `connect` that does not succeed leaves the flag set, given the flag behind the wait: the
  -- handshake failed, or a handler of async_connect ran too late for it.
  abbrev pub exposed_with : Bool → Replies Response → Bool
  exposed_with c r = not (starts r && c && r.shaken) && handled r.late (starts r && c)

  abbrev pub exposed : Replies Response → Bool
  exposed r = exposed_with (handled r.handlers false) r

  -- The same, with a new connection.
  abbrev pub half_open : Replies Response → Bool
  half_open r = starts r && exposed r

  -- The handshake fails on a socket that is connected.
  abbrev pub half_shaken : Replies Response → Bool
  half_shaken r = r.host_name && r.resolved && handled r.handlers false && not r.shaken

  after_wait_cases :
      (c k : Bool) (r : Replies Response)
      → let r' = record r { shaken = k } in
        (after_wait c r').connected ≡ (succeeded (after_wait c r').answer || (c && not k))
  unfolding shake
  after_wait_cases false k r = refl
  after_wait_cases true false r = refl
  after_wait_cases true true r = refl

  connect_cases :
      (h e : Bool) (r : Replies Response)
      → let r' = record r { host_name = h; resolved = e } in
        (connect r').connected ≡ (succeeded (connect r').answer || half_shaken r')
  unfolding connect
  connect_cases false e r = refl
  connect_cases true false r = refl
  connect_cases true true r =
      after_wait_cases (handled r.handlers false) r.shaken
        (record r { host_name = true; resolved = true })

  connect_v0_cases :
      (socket h e k : Bool) (r : Replies Response)
      → let r' = record r { host_name = h; resolved = e; shaken = k } in
        (connect_v0 socket r').connected ≡ succeeded (connect_v0 socket r').answer
  unfolding connect_v0 shake_v0
  connect_v0_cases s h false k r = refl
  connect_v0_cases s false true k r = refl
  connect_v0_cases false true true k r = refl
  connect_v0_cases true true true false r = refl
  connect_v0_cases true true true true r = refl

  -- After `connect_v0` the client says that it is connected exactly when the call has returned
  -- true; when `connect` returns, it says so too if the call returned false because the handshake
  -- failed.
  pub connect-succeeded :
      (r : Replies Response)
      → ((socket : Bool) → (connect_v0 socket r).connected ≡ succeeded (connect_v0 socket r).answer)
        × ((connect r).connected ≡ (succeeded (connect r).answer || half_shaken r))
  connect-succeeded r = (
    λ s. connect_v0_cases s r.host_name r.resolved r.shaken r,
    connect_cases r.host_name r.resolved r,
  )

  -- A client that says it is connected has a secure connection.
  abbrev Kept : Bool → Done Response → Type 0
  Kept s d = (s' : Bool) × (secure s d.made ≡ some s') × (d.connected ≡ true → s' ≡ true)

  module _ (failure : Response → Response) (empty : Response) where
    exchange-secure :
        (r : Replies Response) (w d : Bool)
        → secure true (exchange failure empty (record r { written = w; received = d })).made
          ≡ some true
    unfolding exchange secure
    exchange-secure r false d = refl
    exchange-secure r true false = refl
    exchange-secure r true true = refl

    -- A request of a client that has to connect first, by the flag behind the wait.
    fresh :
        (s c k w d : Bool) (r : Replies Response)
        → let r' = record r { shaken = k; written = w; received = d } in
          (not (c && k) && handled r.late c) ≡ false
          → Kept s (handled_late r.late (after_connect failure empty r' (after_wait c r')))
    unfolding shake exchange secure
    fresh s false k w d r n = (false, refl, λ g. cc)
    fresh s true false w d r n = (false, refl, λ g. cc)
    fresh s true true false d r n = (true, refl, λ g. refl)
    fresh s true true true false r n = (true, refl, λ g. refl)
    fresh s true true true true r n = (true, refl, λ g. refl)

    fresh_cases :
        (s h e : Bool) (r : Replies Response)
        → let r' = record r { host_name = h; resolved = e } in
          exposed r' ≡ false
          → Kept s (handled_late r.late (after_connect failure empty r' (connect r')))
    unfolding connect secure
    fresh_cases s false e r n = (s, refl, λ g. cc)
    fresh_cases s true false r n = (s, refl, λ g. cc)
    fresh_cases s true true r n =
        fresh s (handled r.handlers false) r.shaken r.written r.received
          (record r { host_name = true; resolved = true }) n

    perform_request-Kept :
        (s connected : Bool) (r : Replies Response)
        → (connected ≡ true → s ≡ true)
        → exposed r ≡ false
        → Kept s (perform_request failure empty connected r)
    unfolding perform_request
    perform_request-Kept s false r h n = fresh_cases s r.host_name r.resolved r n
    perform_request-Kept s true r h n =
        rw (h refl) (true, exchange-secure r r.written r.received, λ e. refl)

    -- From a client that says it is connected only where its connection is secure: no request is
    -- written on a connection without a handshake that succeeded, however often
    -- connecting, writing and reading fail and however late the handlers of async_connect run, as
    -- long as no `connect` that fails leaves the client saying that it is connected: by a handshake
    -- that fails on a socket that is connected, or by a handler that runs after the wait for it.
    pub requests-secure :
        (s connected : Bool) (rs : List (Replies Response))
        → (connected ≡ true → s ≡ true)
        → All (λ r. exposed r ≡ false) rs
        → (s' : Bool) × (secure s (requests failure empty connected rs) ≡ some s')
    unfolding requests secure
    requests-secure s connected [] h n = (s, refl)
    requests-secure s connected (r ∷ rs) h (n, ns) =
        let k = perform_request-Kept s connected r h n in
        let d = perform_request failure empty connected r in
        let rest = requests-secure k.0 d.connected rs k.2 ns in
        (
          rest.0,
          secure-append s d.made (requests failure empty d.connected rs)
              ∙ ap (λ o. and_secure o (requests failure empty d.connected rs)) k.1
              ∙ rest.1,
        )

    -- The next request, on a connection without a handshake.
    insecure :
        (r : Replies Response) (calls : List LibraryCall)
        → secure false ((exchange failure empty r).made ++ calls) ≡ none
    unfolding exchange secure
    insecure r calls = elim (Bool-cases r.written) [ inr e ↦ rw e refl | inl e ↦ rw e refl ]

    -- The request throws, and leaves the flag set on a new connection.
    half :
        (s c k : Bool) (r : Replies Response)
        → let r' = record r { shaken = k } in
          let d = handled_late r.late (after_connect failure empty r' (after_wait c r')) in
          (not (c && k) && handled r.late c) ≡ true
          → (secure s d.made ≡ some false) × (d.connected ≡ true)
    unfolding shake secure
    half s false k r n = (refl, n)
    half s true false r n = (refl, n)
    half s true true r n = absurd cc

    half_cases :
        (s h e : Bool) (r : Replies Response)
        → let r' = record r { host_name = h; resolved = e } in
          let d = perform_request failure empty false r' in
          half_open r' ≡ true → (secure s d.made ≡ some false) × (d.connected ≡ true)
    unfolding perform_request connect
    half_cases s false e r n = absurd cc
    half_cases s true false r n = absurd cc
    half_cases s true true r n =
        half s (handled r.handlers false) r.shaken (record r { host_name = true; resolved = true })
          n

    -- A client that is not connected makes a request, whose `connect` starts to connect and fails but
    -- leaves the client saying that it is connected, by a handshake that fails on a socket that is
    -- connected or by a handler of async_connect that runs after the wait for it. The next request is
    -- then written on that connection, which is not secure, whatever the library answers to it.
    pub half_open-requests :
        (s : Bool) (broken r : Replies Response) (rs : List (Replies Response))
        → half_open broken ≡ true
        → secure s (requests failure empty false (broken ∷ r ∷ rs)) ≡ none
    unfolding requests perform_request
    half_open-requests s broken r rs n =
        let (e, f) = half_cases s broken.host_name broken.resolved broken n in
        let d = perform_request failure empty false broken in
        secure-append s d.made (requests failure empty d.connected (r ∷ rs))
        ∙ ap (λ o. and_secure o (requests failure empty d.connected (r ∷ rs))) e
        ∙ ap (λ c. secure false (requests failure empty c (r ∷ rs))) f
        ∙ insecure r _
