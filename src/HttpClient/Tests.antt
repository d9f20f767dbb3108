-- ===== src/HttpClient/Tests.antt =====
-- moxt/httpx/httpclient.hpp: runs of the client, with a number as the response.
use moxt_cpp.HttpClient.{Replies, requests}
use moxt_cpp.HttpClient.Requests.{secure, requests-secure, half_open-requests}
use moxt_cpp.Prelude.{◌≡◌, refl, ℕ, Bool, true, false, none, some, [], ◌∷◌}

abbrev served : Replies ℕ
served = record {
  host_name = true;
  resolved = true;
  handlers = true ∷ [];
  late = [];
  shaken = true;
  written = true;
  received = true;
  response = 200;
}

abbrev broken : Replies ℕ
broken = record served { shaken = false }

abbrev cut_off : Replies ℕ
cut_off = record served { received = false }

-- The handler of async_connect runs after the wait for it.
abbrev belated : Replies ℕ
belated = record served { handlers = []; late = true ∷ [] }

abbrev not_found : ℕ → ℕ
not_found r = 404

requests-secure_example :
    (s : Bool) × (secure false (requests not_found 0 false (served ∷ cut_off ∷ served ∷ []))
      ≡ some s)
requests-secure_example =
    requests-secure not_found 0 false false (served ∷ cut_off ∷ served ∷ []) (λ e. e)
      (refl, (refl, (refl, tt)))

half_shaken-requests : secure false (requests not_found 0 false (broken ∷ served ∷ [])) ≡ none
half_shaken-requests = half_open-requests not_found 0 false broken served [] refl

half_open-requests_example :
    secure false (requests not_found 0 false (belated ∷ served ∷ [])) ≡ none
half_open-requests_example = half_open-requests not_found 0 false belated served [] refl
