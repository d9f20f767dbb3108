-- ===== src/CurlClient/Handles.antt =====
-- What moxt/cclient.cpp uses of photon's cURL and IdentityPool, with their documented behaviour: a
-- handle with its request headers and, with an instance, a pool of handles kept for the next use.
use moxt_cpp.Prelude.{◌≡◌, refl, Option, some, List, [], ◌∷◌, ◌++◌, Bytes}

-- The method of a request: one without a body, or one with it.
pub data Method : Type 0 where
  delete get head post put : Method

pub record Curl : Type 1 where
  pub Handle : Type 0
  pub Pool : Type 0
  -- `IdentityPool::get`, which constructs a handle where it has none, and null where that fails
  pub take : Pool → Option Handle × Pool
  pub put_back : Handle → Pool → Pool
  -- `reset_error`, `reset` and `clear_header`
  pub cleared : Handle → Handle
  pub append_header : Bytes → Bytes → Handle → Handle
  -- `set_verbose` and `set_header_container`
  pub set_debug : Handle → Handle
  -- The handle after a transfer.
  pub transferred : Method → Bytes → Handle → Handle
  -- the headers that a transfer sends
  pub headers : Handle → List (Bytes × Bytes)
  pub headers-cleared : (h : Handle) → headers (cleared h) ≡ []
  pub headers-append_header :
      (name value : Bytes) (h : Handle)
      → headers (append_header name value h) ≡ headers h ++ (name, value) ∷ []
  pub headers-set_debug : (h : Handle) → headers (set_debug h) ≡ headers h

-- A handle that is its headers, and a pool whose construction of a handle does not fail.
abbrev pub take_or_new :
    List (List (Bytes × Bytes)) → Option (List (Bytes × Bytes)) × List (List (Bytes × Bytes))
take_or_new [] = (some [], [])
take_or_new (h ∷ hs) = (some h, hs)

abbrev pub listed : Curl
listed = record {
  Handle = List (Bytes × Bytes);
  Pool = List (List (Bytes × Bytes));
  take = take_or_new;
  put_back = λ h hs. h ∷ hs;
  cleared = λ h. [];
  append_header = λ name value h. h ++ (name, value) ∷ [];
  set_debug = λ h. h;
  transferred = λ method url h. h;
  headers = λ h. h;
  headers-cleared = λ h. refl;
  headers-append_header = λ name value h. refl;
  headers-set_debug = λ h. refl;
}
