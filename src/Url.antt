-- ===== src/Url.antt =====
-- The URL parser and the constructor URL (polyfill/url.c). `snprintf` into a buffer of n bytes keeps the
-- first n - 1.
pub mod Authority
pub mod Text
pub mod RoundTrip
pub mod Href
mod Tests
use cqjs.Prelude.{
  ℕ, ◌-◌, Bool, true, false, ◌||◌, Option, none, some, List, [], ◌∷◌, ◌++◌, take, drop, suc, length,
  Bytes, codes, ltb, ◌==◌, if◌then◌else◌, until, cut, cut_last, cut_word,
}
use cqjs.SearchParams.{Param, sp_parse}

pub record ParsedUrl : Type 0 where
  pub scheme : Bytes
  pub username : Bytes
  pub password : Bytes
  pub hostname : Bytes
  pub port : Bytes
  pub path : Bytes
  pub query : Bytes
  pub fragment : Bytes

-- The text at "://", or the whole text without a scheme.
scheme_of : Bytes → Option (Bytes × Bytes) → Bytes × Bytes
scheme_of url none = ([], url)
scheme_of url (some parts) = parts

abbrev later_place : Option ℕ → Option ℕ
later_place none = none
later_place (some n) = some (suc n)

-- `strchr(p, c)`, as the distance from `p`.
pub place_of : ℕ → Bytes → Option ℕ
place_of c [] = none
place_of c (x ∷ s) = let rest = place_of c s in if x == c then some 0 else later_place rest

-- `if (!authority_end || (start && start < authority_end)) authority_end = start`
pub earlier : Option ℕ → Option ℕ → Option ℕ
earlier none start = start
earlier (some n) none = some n
earlier (some n) (some k) = if ltb k n then some k else some n

-- Without an end the whole text is taken.
end_or : ℕ → Option ℕ → ℕ
end_or n none = n
end_or n (some k) = k

-- The distance to the first `/`, `?` or `#`.
pub authority_end : Bytes → ℕ
unfolding end_or
authority_end p =
    let path_start = place_of b'/' p in
    let query_start = place_of b'?' p in
    let frag_start = place_of b'#' p in
    end_or (length p) (earlier (earlier path_start query_start) frag_start)

abbrev parts_at : ℕ → Bytes → Bytes × Bytes
parts_at n p = (take n p, drop n p)

-- The authority, and what follows it.
pub split_authority : Bytes → Bytes × Bytes
split_authority p = parts_at (authority_end p) p

pub is_path_end : ℕ → Bool
is_path_end c = c == b'?' || c == b'#'

text_or_empty : Option Bytes → Bytes
text_or_empty none = []
text_or_empty (some s) = s

-- The user's name and password, and the part with the host, at the first `@`.
userinfo : Bytes × Option Bytes → (Bytes × Bytes) × Bytes
unfolding text_or_empty
userinfo (authority, none) = (([], []), authority)
userinfo (user, some host_part) =
    let parts = cut b':' user in ((parts.0, text_or_empty parts.1), host_part)

-- The host and the port, at the last `:`, if there is no `[`.
port_at : Bytes → Option (Bytes × Bytes) → Option Bytes → Bytes × Bytes
port_at host_part none bracket = (host_part, [])
port_at host_part (some parts) none = parts
port_at host_part (some parts) (some rest) = (host_part, [])

pub host_port : Bytes → Bytes × Bytes
unfolding port_at
host_port host_part = port_at host_part (cut_last b':' host_part) (cut b'[' host_part).1

-- The path and what follows it.
path_of : Bytes → Bytes × Bytes
path_of [] = (codes "/", [])
path_of (c ∷ s) = if c == b'/' then until is_path_end (c ∷ s) else (codes "/", c ∷ s)

-- The query, without `?`, and what follows it; its end is not passed.
query_of : Bytes → Bytes × Bytes
query_of [] = ([], [])
query_of (c ∷ s) = if c == b'?' then until (λ x. x == b'#') s else ([], c ∷ s)

-- The fragment, without `#`.
fragment_of : Bytes → Bytes
fragment_of [] = []
fragment_of (c ∷ s) = if c == b'#' then s else []

-- The authority and what follows it, behind a scheme.
parse_rest : Bytes → Bytes × Bytes → ParsedUrl
unfolding userinfo path_of query_of fragment_of
parse_rest scheme (authority, rest) =
    let user = userinfo (cut b'@' authority) in
    let host = host_port user.1 in
    let path = path_of rest in
    let query = query_of path.1 in
    record {
      scheme = scheme;
      username = user.0.0;
      password = user.0.1;
      hostname = host.0;
      port = host.1;
      path = path.0;
      query = query.0;
      fragment = fragment_of query.1;
    }

pub parse_url : Bytes → ParsedUrl
unfolding scheme_of parse_rest
parse_url url =
    let parts = scheme_of url (cut_word (codes "://") url) in
    parse_rest parts.0 (split_authority parts.1)

-- `%s%s` of a sign and a text, or nothing if the text is empty.
abbrev pub signed : ℕ → Bytes → Bytes
signed sign [] = []
signed sign (c ∷ s) = sign ∷ c ∷ s

-- The properties that are set on the new object.
pub record Url : Type 0 where
  pub href : Bytes
  pub protocol : Bytes
  pub host : Bytes
  pub hostname : Bytes
  pub port : Bytes
  pub pathname : Bytes
  pub search : Bytes
  pub hash : Bytes
  pub origin : Bytes
  pub username : Bytes
  pub password : Bytes
  pub search_params : List Param

abbrev pub printed : ℕ → Bytes → Bytes
printed size s = take (size - 1) s

pub url_of : ParsedUrl → Url
url_of u =
    let host = printed 512 (u.hostname ++ signed b':' u.port) in
    record {
      href = printed 8192 (
          u.scheme
          ++ (codes "://"
              ++ (u.hostname
                  ++ (signed b':' u.port
                      ++ (u.path ++ (signed b'?' u.query ++ signed b'#' u.fragment))))));
      protocol = printed 64 (u.scheme ++ codes ":");
      host = host;
      hostname = u.hostname;
      port = u.port;
      pathname = u.path;
      search = printed 4096 (signed b'?' u.query);
      hash = printed 4096 (signed b'#' u.fragment);
      origin = printed 1024 (u.scheme ++ (codes "://" ++ host));
      username = u.username;
      password = u.password;
      search_params = sp_parse (some u.query);
    }

-- What the constructor gives: an exception, with its text or that of the conversion, or an object.
pub data Built : Type 0 where
  type_error : Bytes → Built
  exception : Built
  object : Url → Built

pub js_url_constructor : ℕ → Option Bytes → Built
unfolding url_of
js_url_constructor argc none =
    if ltb argc 1 then type_error (codes "URL requires at least 1 argument") else exception
js_url_constructor argc (some url) =
    if ltb argc 1
    then type_error (codes "URL requires at least 1 argument")
    else object (url_of (parse_url url))

-- The constructor URLSearchParams; the list that the new object refers to, `none` for an exception.
pub js_urlsearchparams_constructor : ℕ → Option Bytes → Option (List Param)
js_urlsearchparams_constructor argc none = if ltb 0 argc then none else some (sp_parse (some []))
js_urlsearchparams_constructor argc (some query) =
    some (sp_parse (some (if ltb 0 argc then query else [])))
