-- ===== src/UrlParts.antt =====
-- moxt/httpx/url_parts.hpp: `URLParts::Parse` and `GetPort`, which the HTTP and WebSocket clients
-- take an address apart with. `none` is `npos`; the indices are those of the source.
pub mod Parse
mod Tests
use native.Mathlib.Decide.{ℕ_discrete}
use mathlib.Core.Logic.{ite}
use moxt_cpp.Prelude.{
  ℕ, ◌+◌, ◌-◌, Bool, true, false, Option, none, some, List, [], ◌∷◌, Bytes, codes, take, drop,
}
use moxt_cpp.Prelude.Text.{find, find_text, same_text}

pub record Url : Type 0 where
  pub scheme : Bytes
  pub user_pass : Bytes
  pub host : Bytes
  pub port : Bytes
  pub path_query_fragment : Bytes

abbrev pub shift : ℕ → Option ℕ → Option ℕ
shift n none = none
shift n (some m) = some (n + m)

-- `s.find(c, n)`
unfoldable pub find_from : ℕ → ℕ → Bytes → Option ℕ
find_from c n s = shift n (find c (drop n s))

-- `s.substr(n, k)`, and `s.substr(n)` is `drop n s`.
abbrev pub substr : ℕ → ℕ → Bytes → Bytes
substr n k s = take k (drop n s)

-- The part between "://" and the slash at `m`, and the path from there.
unfoldable pub split_path : Bytes → ℕ → Option ℕ → Bytes × Bytes
split_path url n none = (drop n url, [])
split_path url n (some m) = (substr n (m - n) url, drop m url)

-- The user's name and password, and what follows the `@`.
unfoldable pub split_user : Bytes → Option ℕ → Bytes × Bytes
split_user s none = ([], s)
split_user s (some m) = (substr 0 (m - 0) s, drop (m + 1) s)

-- The host and the port.
unfoldable pub split_port : Bytes → Option ℕ → Bytes × Bytes
split_port s none = (s, [])
split_port s (some m) = (substr 0 (m - 0) s, drop (m + 1) s)

-- The fields, with "://" at `n`.
unfoldable pub parse_at : Bytes → ℕ → Url
parse_at url n =
    let n' = n + 3 in
    let by_path = split_path url n' (find_from b'/' n' url) in
    let by_user = split_user by_path.0 (find b'@' by_path.0) in
    let by_port = split_port by_user.1 (find b':' by_user.1) in
    record {
      scheme = take n url;
      user_pass = by_user.0;
      host = by_port.0;
      port = by_port.1;
      path_query_fragment = by_path.1;
    }

-- The answer, and the fields afterwards.
abbrev pub parse_found : Bytes → Url → Option ℕ → Bool × Url
parse_found url parts none = (false, parts)
parse_found url parts (some n) = (true, parse_at url n)

unfoldable pub parse : Bytes → Url → Bool × Url
parse url parts = parse_found url parts (find_text (codes "://") url)

abbrev pub default_port : Bytes → Bytes
default_port scheme =
    ite (same_text scheme (codes "wss")) (codes "443")
      (ite (same_text scheme (codes "https")) (codes "443") (codes "80"))

-- `GetPort`
abbrev pub port_or : Bytes → Bytes → Bytes
port_or [] default = default
port_or (c ∷ port) default = c ∷ port

unfoldable pub get_port : Url → Bytes
get_port parts = port_or parts.port (default_port parts.scheme)
