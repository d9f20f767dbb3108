-- ===== src/UrlParts/Tests.antt =====
-- moxt/httpx/url_parts.hpp: addresses of exchanges taken apart.
use moxt_cpp.UrlParts.{
  Url, parse, parse_at, get_port, find_from, split_path, split_user, split_port,
}
use moxt_cpp.UrlParts.Parse.{print, parse-print}
use moxt_cpp.Prelude.Text.{find, find_text, same_text}
use native.Mathlib.Decide.{ℕ_discrete}
use moxt_cpp.Prelude.{◌≡◌, refl, true, false, some, [], codes, Bytes, arith}

abbrev blank : Url
blank = record { scheme = []; user_pass = []; host = []; port = []; path_query_fragment = [] }

abbrev exchange : Bytes
exchange = codes "wss://stream.bybit.com/v5/public/linear"

get_port_run : get_port (parse exchange blank).1 ≡ codes "443"
unfolding get_port parse parse_at find_from split_path split_user split_port find find_text
    same_text ℕ_discrete
get_port_run = refl

parse_no_scheme : parse (codes "api.bybit.com:443/v5") blank ≡ (false, blank)
unfolding parse find_text
parse_no_scheme = refl

parse-print_example :
    parse
      (print
        (codes "ws")
        (some (codes "me:pw"))
        (codes "local")
        (some (codes "9001"))
        (codes "/v5"))
      blank
    ≡ (
      true,
      record {
        scheme = codes "ws";
        user_pass = codes "me:pw";
        host = codes "local";
        port = codes "9001";
        path_query_fragment = codes "/v5";
      },
    )
parse-print_example =
    parse-print (codes "ws") (some (codes "me:pw")) (codes "local") (some (codes "9001"))
      (codes "/v5") blank (ground arith)
      (record {
        host_colon = ground arith;
        user_at = ground arith;
        rest_at = ground arith;
        slash = ground arith;
      })
      refl
