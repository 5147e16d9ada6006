-- ===== src/Url/Href.antt =====
-- The object that the constructor builds: its href is the text of the URL without the user.
use cqjs.Prelude.{
  ℕ, ◌≤◌, ◌<◌, some, [], ◌++◌, append_assoc, length, take, take-length_le, codes, ◌≡◌, refl, sym,
  ap, ◌∙◌, arith,
}
use cqjs.SearchParams.{sp_parse}
use cqjs.Url.{ParsedUrl, parse_url, Url, url_of, object, js_url_constructor, signed}
use cqjs.Url.RoundTrip.{parse_url-url_text}
use cqjs.Url.Text.{IsPlain, url_text, tail_text}

-- The parts without the user's name and password.
abbrev pub anonymous : ParsedUrl → ParsedUrl
anonymous u = record u { username = []; password = [] }

anonymous-IsPlain : (u : ParsedUrl) → IsPlain u → IsPlain (anonymous u)
anonymous-IsPlain u h = record {
  scheme = h.scheme;
  username = tt;
  password = tt;
  hostname = h.hostname;
  port = h.port;
  rooted = h.rooted;
  path = h.path;
  query = h.query;
}

href-url_text :
    (u : ParsedUrl)
    → length (url_text (anonymous u)) < 8192
    → (url_of u).href ≡ url_text (anonymous u)
unfolding url_of
href-url_text u short =
    let regroup : u.scheme
          ++ (codes "://" ++ (u.hostname ++ (signed b':' u.port ++ (u.path ++ tail_text u))))
        ≡ url_text (anonymous u) =
      ap (λ s. u.scheme ++ (codes "://" ++ s))
        (sym (append_assoc u.hostname (signed b':' u.port) (u.path ++ tail_text u))) in
    ap (take 8191) regroup ∙ take-length_le 8191 (url_text (anonymous u)) (omega arith)

-- What is known of the object that is built for these parts.
pub record Shows (u : ParsedUrl) (o : Url) : Type 0 where
  pub href : o.href ≡ url_text (anonymous u)
  pub reparsed : parse_url o.href ≡ anonymous u
  pub username : o.username ≡ u.username
  pub password : o.password ≡ u.password
  pub hostname : o.hostname ≡ u.hostname
  pub port : o.port ≡ u.port
  pub pathname : o.pathname ≡ u.path
  pub protocol : o.protocol ≡ take 63 (u.scheme ++ codes ":")
  pub host : o.host ≡ take 511 (u.hostname ++ signed b':' u.port)
  pub search : o.search ≡ take 4095 (signed b'?' u.query)
  pub hash : o.hash ≡ take 4095 (signed b'#' u.fragment)
  pub origin :
      o.origin
      ≡ take 1023 (u.scheme ++ (codes "://" ++ take 511 (u.hostname ++ signed b':' u.port)))
  pub params : o.search_params ≡ sp_parse (some u.query)

-- If the parts are plain and their text without the user has less than 8192 bytes, then the constructor,
-- called with the text of the parts, builds an object that has these parts, and whose href is the text
-- without the user: parsing it again gives the same parts but for the user. The protocol, the host, the
-- search, the hash and the origin are put together from the parts, and cut to 63, 511, 4095, 4095 and 1023
-- bytes.
pub js_url_constructor-url_text :
    (u : ParsedUrl) (argc : ℕ)
    → IsPlain u
    → 1 ≤ argc
    → length (url_text (anonymous u)) < 8192
    → (o : Url) × (js_url_constructor argc (some (url_text u)) ≡ object o) × Shows u o
js_url_constructor-url_text u argc h given short =
    let built : js_url_constructor argc (some (url_text u)) ≡ object (url_of u) =
      unfold js_url_constructor in rw (parse_url-url_text u h) (ground arith) in
    let href = href-url_text u short in
    (
      url_of u,
      built,
      record {
        href = href;
        reparsed = ap parse_url href ∙ parse_url-url_text (anonymous u) (anonymous-IsPlain u h);
        username = unfold url_of in refl;
        password = unfold url_of in refl;
        hostname = unfold url_of in refl;
        port = unfold url_of in refl;
        pathname = unfold url_of in refl;
        protocol = unfold url_of in refl;
        host = unfold url_of in refl;
        search = unfold url_of in refl;
        hash = unfold url_of in refl;
        origin = unfold url_of in refl;
        params = unfold url_of in refl;
      },
    )
