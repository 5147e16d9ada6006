-- ===== src/Url/Tests.antt =====
-- A URL with all parts.
use cqjs.Prelude.{until, some, codes, ◌≡◌, refl, arith}
use cqjs.Url.Authority.{is_authority_end, split_authority-until}
use cqjs.Url.{split_authority, ParsedUrl, parse_url, Url, object, js_url_constructor}
use cqjs.Url.RoundTrip.{parse_url-url_text}
use cqjs.Url.Text.{IsPlain, url_text}
use cqjs.Url.Href.{Shows, js_url_constructor-url_text}

abbrev full : ParsedUrl
full = record {
  scheme = codes "https";
  username = codes "me";
  password = codes "a:b";
  hostname = codes "example.com";
  port = codes "8080";
  path = codes "/x/y";
  query = codes "k=1&l=?";
  fragment = codes "top#";
}

full-IsPlain : IsPlain full
full-IsPlain = record {
  scheme = omega arith;
  username = omega arith;
  password = omega arith;
  hostname = omega arith;
  port = omega arith;
  rooted = refl;
  path = omega arith;
  query = omega arith;
}

full_text : url_text full ≡ codes "https://me:a:b@example.com:8080/x/y?k=1&l=?#top#"
full_text = refl

parse_url-url_text_example : parse_url (url_text full) ≡ full
parse_url-url_text_example = parse_url-url_text full full-IsPlain

js_url_constructor-url_text_example :
    (o : Url) × (js_url_constructor 1 (some (url_text full)) ≡ object o) × Shows full o
js_url_constructor-url_text_example =
    js_url_constructor-url_text full 1 full-IsPlain (omega arith) (omega arith)

split_authority-until_example :
    split_authority (codes "h:1?a=/#f") ≡ until is_authority_end (codes "h:1?a=/#f")
split_authority-until_example = split_authority-until (codes "h:1?a=/#f")
