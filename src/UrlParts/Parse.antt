-- ===== src/UrlParts/Parse.antt =====
-- moxt/httpx/url_parts.hpp: the fields of an address written from its parts.
use moxt_cpp.UrlParts.{Url, find_from, split_path, split_user, split_port, parse_at, parse, substr}
use moxt_cpp.Prelude.{
  ◌≡◌, refl, sym, ◌∙◌, ap, ℕ, suc, ◌+◌, ◌-◌, true, Option, none, some, [], ◌∷◌, ◌++◌, Bytes, codes,
  take, drop, length, length-append, take-length-append, drop-length-append, arith, append_assoc,
  append-nil,
}
use moxt_cpp.Prelude.Text.{find, find_text, Lacks, find_first, find-Lacks}

-- `user_pass@`, where there is one.
abbrev pub user_text : Option Bytes → Bytes → Bytes
user_text none s = s
user_text (some u) s = u ++ b'@' ∷ s

-- `:port`, where there is one.
abbrev pub port_text : Option Bytes → Bytes → Bytes
port_text none host = host
port_text (some p) host = host ++ b':' ∷ p

abbrev pub or_empty : Option Bytes → Bytes
or_empty none = []
or_empty (some s) = s

-- A path starts with a slash.
abbrev pub IsPath : Bytes → Type 0
IsPath [] = Unit
IsPath (c ∷ s) = c ≡ b'/'

abbrev pub authority : Option Bytes → Bytes → Option Bytes → Bytes
authority user host port = user_text user (port_text port host)

drop-append : (xs ys : Bytes) (n : ℕ) → drop (length xs + n) (xs ++ ys) ≡ drop n ys
drop-append [] ys n = let e : 0 + n ≡ n = omega arith in rw e refl
drop-append (x ∷ xs) ys n =
    let e : suc (length xs) + n ≡ suc (length xs + n) = omega arith in rw e (drop-append xs ys n)

-- A text is cut at a character.
cut :
    (c : ℕ) (s t : Bytes)
    → Path
        (Bytes × Bytes)
        (substr 0 (length s - 0) (s ++ c ∷ t), drop (length s + 1) (s ++ c ∷ t))
        (s, t)
cut c s t =
    let e : length s - 0 ≡ length s = omega arith in
    rw (e, take-length-append s (c ∷ t), drop-append s (c ∷ t) 1) refl

find_text-scheme :
    (scheme s : Bytes)
    → Lacks b':' scheme
    → find_text (codes "://") (scheme ++ (codes "://" ++ s)) ≡ some (length scheme)
unfolding find_text
find_text-scheme [] s h = refl
find_text-scheme (c ∷ scheme) s h = ground (arith, find_text-scheme scheme s h.1)

after_slash :
    (pre s path : Bytes)
    → split_path (pre ++ (s ++ b'/' ∷ path)) (length pre) (some (length pre + length s))
      ≡ (s, b'/' ∷ path)
unfolding split_path
after_slash pre s path =
    let e : length pre + length s - length pre ≡ length s = omega arith in
    rw
      (
        drop-append pre (s ++ b'/' ∷ path) (length s),
        drop-length-append s (b'/' ∷ path),
        drop-length-append pre (s ++ b'/' ∷ path),
        e,
        take-length-append s (b'/' ∷ path),
      )
      refl

split_path-IsPath :
    (pre s path : Bytes)
    → Lacks b'/' s
    → IsPath path
    → split_path
        (pre ++ (s ++ path))
        (length pre)
        (find_from b'/' (length pre) (pre ++ (s ++ path)))
      ≡ (s, path)
unfolding split_path find_from
split_path-IsPath pre s [] h e =
    rw (append-nil s, drop-length-append pre s, find-Lacks b'/' s h, drop-length-append pre s) refl
split_path-IsPath pre s (c ∷ path) h e =
    rw (e, drop-length-append pre (s ++ b'/' ∷ path), find_first b'/' s path h)
      (after_slash pre s path)

split_user-user_text :
    (user : Option Bytes) (s : Bytes)
    → Lacks b'@' (or_empty user)
    → Lacks b'@' s
    → split_user (user_text user s) (find b'@' (user_text user s)) ≡ (or_empty user, s)
unfolding split_user
split_user-user_text none s hu h = rw (find-Lacks b'@' s h) refl
split_user-user_text (some u) s hu h = rw (find_first b'@' u s hu) (cut b'@' u s)

split_port-port_text :
    (port : Option Bytes) (host : Bytes)
    → Lacks b':' host
    → split_port (port_text port host) (find b':' (port_text port host)) ≡ (host, or_empty port)
unfolding split_port
split_port-port_text none s h = rw (find-Lacks b':' s h) refl
split_port-port_text (some p) s h = rw (find_first b':' s p h) (cut b':' s p)

-- An address written from its parts.
unfoldable pub print : Bytes → Option Bytes → Bytes → Option Bytes → Bytes → Bytes
print scheme user host port path = scheme ++ (codes "://" ++ (authority user host port ++ path))

-- What the parts have to leave out.
pub record Plain (user : Option Bytes) (host : Bytes) (port : Option Bytes) : Type 0 where
  pub host_colon : Lacks b':' host
  pub user_at : Lacks b'@' (or_empty user)
  pub rest_at : Lacks b'@' (port_text port host)
  pub slash : Lacks b'/' (authority user host port)

parse_at-print :
    (pre : Bytes) (n : ℕ) (user : Option Bytes) (host : Bytes) (port : Option Bytes) (path : Bytes)
    → n + 3 ≡ length pre
    → Plain user host port
    → IsPath path
    → parse_at (pre ++ (authority user host port ++ path)) n ≡ record {
      scheme = take n (pre ++ (authority user host port ++ path));
      user_pass = or_empty user;
      host = host;
      port = or_empty port;
      path_query_fragment = path;
    }
unfolding parse_at
parse_at-print pre n user host port path e p h =
    rw
      (
        e,
        split_path-IsPath pre (authority user host port) path p.slash h,
        split_user-user_text user (port_text port host) p.user_at p.rest_at,
        split_port-port_text port host p.host_colon,
      )
      refl

-- The same, with the scheme found.
whole :
    (scheme : Bytes) (user : Option Bytes) (host : Bytes) (port : Option Bytes) (path : Bytes)
    → Plain user host port
    → IsPath path
    → parse_at (print scheme user host port path) (length scheme) ≡ record {
      scheme = scheme;
      user_pass = or_empty user;
      host = host;
      port = or_empty port;
      path_query_fragment = path;
    }
unfolding print
whole scheme user host port path p h =
    let rest = authority user host port ++ path in
    rw
      (
        ← append_assoc scheme (codes "://") rest,
        parse_at-print (scheme ++ codes "://") (length scheme) user host port path
            (sym (length-append scheme (codes "://"))) p h,
        append_assoc scheme (codes "://") rest,
        take-length-append scheme (codes "://" ++ rest),
      )
      refl

-- An address written as scheme, "://", an optional user part with "@", host, an optional port
-- after ":", and a path that is empty or starts with "/", is taken apart into just these parts,
-- where the scheme and the host have no ":", the user part, the host and the port have no "@", and
-- these three have no "/". What the fields held before is overwritten.
pub parse-print :
    (scheme : Bytes) (user : Option Bytes) (host : Bytes) (port : Option Bytes) (path : Bytes)
    (before : Url)
    → Lacks b':' scheme
    → Plain user host port
    → IsPath path
    → parse (print scheme user host port path) before ≡ (
      true,
      record {
        scheme = scheme;
        user_pass = or_empty user;
        host = host;
        port = or_empty port;
        path_query_fragment = path;
      },
    )
unfolding parse print
parse-print scheme user host port path before hs p h =
    rw (find_text-scheme scheme (authority user host port ++ path) hs)
      (ap (λ r. (true, r)) (whole scheme user host port path p h))

-- An address with a query right behind its host, no port and no path: the query becomes part of the
-- host and the path stays empty, where scheme and host have no ":", and neither host nor query has
-- a ":", "@" or "/".
parse-query :
    (scheme host query : Bytes) (before : Url)
    → Lacks b':' scheme
    → Plain none (host ++ b'?' ∷ query) none
    → parse (scheme ++ (codes "://" ++ (host ++ b'?' ∷ query))) before ≡ (
      true,
      record {
        scheme = scheme;
        user_pass = [];
        host = host ++ b'?' ∷ query;
        port = [];
        path_query_fragment = [];
      },
    )
unfolding print
parse-query scheme host query before hs p =
    let whole_host = host ++ b'?' ∷ query in
    ap (λ u. parse (scheme ++ (codes "://" ++ u)) before) (sym (append-nil whole_host))
    ∙ parse-print scheme none whole_host none [] before hs p tt
