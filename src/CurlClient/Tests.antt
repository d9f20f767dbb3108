-- ===== src/CurlClient/Tests.antt =====
-- moxt/cclient.cpp: two requests through the same handle, the second with no headers of its own.
use moxt_cpp.CurlClient.Handles.{listed, get}
use moxt_cpp.CurlClient.{CClient}
use moxt_cpp.CurlClient.Requests.{Request, Call, requesting, testing, run, answers, run-answers}
use moxt_cpp.Prelude.{◌≡◌, refl, true, false, some, List, [], ◌∷◌, codes}
use moxt_cpp.Prelude.Int.{pos, negsuc}
use moxt_cpp.Prelude.Outcome.{ok}

abbrev client : CClient
client = record { base_url = codes "https://api.local"; host = codes "api.local" }

abbrev order : Request
order = record {
  client = client;
  path = codes "/order";
  headers = (codes "X-Key", codes "k") ∷ [];
  body = codes "{}";
  reply = record { ret = pos 200; written = codes "created" };
}

abbrev time : Request
time = record {
  client = client;
  path = codes "/time";
  headers = [];
  body = [];
  reply = record { ret = negsuc 0; written = [] };
}

abbrev calls : List Call
calls = requesting order (pos 4) 4 true ∷ requesting time (pos 9) 4 false ∷ testing time get ∷ []

abbrev listed_some : (p : listed.Pool) → (h : listed.Handle) × ((listed.take p).0 ≡ some h)
listed_some [] = ([], refl)
listed_some (h ∷ hs) = (h, refl)

run-answers_example : (u : listed.Pool) × (run listed calls [] ≡ ok (answers calls, u))
run-answers_example = run-answers listed listed_some calls [] (refl, (refl, (tt, tt)))
