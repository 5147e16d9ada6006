-- ===== src/Url/RoundTrip.antt =====
-- Parsing the text that is written for the parts of a URL.
use cqjs.Prelude.{
  ℕ, false, some, [], ◌∷◌, ◌++◌, append_assoc, append-nil, All, All-append, All-map, Bytes, codes,
  ◌==◌, ◌≡◌, ◌≢◌, refl, ◌∙◌, arith, cut, cut_word, strip_prefix, Stops, until-append, cut-append,
  cut-none, cut_last-none, cut_last-append, cut_word-append,
}
use cqjs.Url.Text.{
  IsNameChar, IsPasswordChar, IsHostChar, IsPathChar, IsRooted, IsPlain, userinfo_text, host_text,
  tail_text, url_text,
}
use cqjs.Url.Authority.{is_authority_end, split_authority-until}
use cqjs.Url.{
  ParsedUrl, parse_url, split_authority, is_path_end, userinfo, host_port, port_at, path_of,
  query_of, fragment_of, parse_rest, scheme_of, signed,
}

abbrev IsInside : ℕ → Type 0
IsInside c = is_authority_end c ≡ false

inside : (s : Bytes) → All IsPasswordChar s → All IsInside s
inside = All-map IsPasswordChar IsInside (λ c h. unfold is_authority_end in ground arith)

name-IsInside : (s : Bytes) → All IsNameChar s → All IsInside s
name-IsInside s h = inside s (All-map IsNameChar IsPasswordChar (λ c h. omega arith) s h)

host-IsInside : (s : Bytes) → All IsHostChar s → All IsInside s
host-IsInside s h = inside s (All-map IsHostChar IsPasswordChar (λ c h. omega arith) s h)

port-IsInside : (s : Bytes) → All IsHostChar s → All IsInside (signed b':' s)
port-IsInside [] h = tt
port-IsInside (c ∷ s) h = (unfold is_authority_end in refl, host-IsInside (c ∷ s) h)

at-IsInside : All IsInside (b'@' ∷ [])
unfolding is_authority_end
at-IsInside = (refl, tt)

userinfo-IsInside :
    (name password : Bytes)
    → All IsNameChar name
    → All IsPasswordChar password
    → All IsInside (userinfo_text name password)
userinfo-IsInside [] [] hn hp = tt
userinfo-IsInside [] (c ∷ s) hn hp =
    (unfold is_authority_end in refl, All-append IsInside (c ∷ s) _ (inside (c ∷ s) hp) at-IsInside)
userinfo-IsInside (c ∷ s) password hn hp =
    All-append IsInside (c ∷ s) _ (name-IsInside (c ∷ s) hn) (
      unfold is_authority_end in refl,
      All-append IsInside password _ (inside password hp) at-IsInside,
    )

authority-IsInside :
    (u : ParsedUrl) → IsPlain u → All IsInside (userinfo_text u.username u.password ++ host_text u)
authority-IsInside u h =
    All-append IsInside (userinfo_text u.username u.password) (host_text u)
      (userinfo-IsInside u.username u.password h.username h.password)
      (All-append IsInside u.hostname _ (host-IsInside u.hostname h.hostname)
        (port-IsInside u.port h.port))

-- The texts in front of `@` that hold none.
abbrev IsBefore : ℕ → ℕ → Type 0
IsBefore d c = c ≢ d

name-IsBefore : (s : Bytes) → All IsNameChar s → All (IsBefore b'@') s
name-IsBefore = All-map IsNameChar (IsBefore b'@') (λ c h. omega arith)

password-IsBefore : (s : Bytes) → All IsPasswordChar s → All (IsBefore b'@') s
password-IsBefore = All-map IsPasswordChar (IsBefore b'@') (λ c h. omega arith)

name_colon : (s : Bytes) → All IsNameChar s → All (IsBefore b':') s
name_colon = All-map IsNameChar (IsBefore b':') (λ c h. omega arith)

module _ (s : Bytes) (h : All IsHostChar s) where
  host-IsBefore : All (IsBefore b'@') s
  host-IsBefore = All-map IsHostChar (IsBefore b'@') (λ c h. omega arith) s h

  host_colon : All (IsBefore b':') s
  host_colon = All-map IsHostChar (IsBefore b':') (λ c h. omega arith) s h

  host_bracket : All (IsBefore b'[') s
  host_bracket = All-map IsHostChar (IsBefore b'[') (λ c h. omega arith) s h

port-IsBefore :
    (d : ℕ) (s : Bytes) → b':' ≢ d → All (IsBefore d) s → All (IsBefore d) (signed b':' s)
port-IsBefore d [] hd h = tt
port-IsBefore d (c ∷ s) hd h = (hd, h)

-- The user's name and password are found before the first `@`.
userinfo-text :
    (name password host : Bytes)
    → All IsNameChar name
    → All IsPasswordChar password
    → All (IsBefore b'@') host
    → userinfo (cut b'@' (userinfo_text name password ++ host)) ≡ ((name, password), host)
unfolding userinfo
userinfo-text [] [] host hn hp hh = rw (cut-none b'@' host hh) refl
userinfo-text [] (c ∷ s) host hn hp hh =
    rw
      (
        append_assoc (c ∷ s) (b'@' ∷ []) host,
        cut-append b'@' (b':' ∷ (c ∷ s)) host (omega arith, password-IsBefore (c ∷ s) hp),
        cut-append b':' [] (c ∷ s) tt,
      )
      refl
userinfo-text (c ∷ s) password host hn hp hh =
    let user = (c ∷ s) ++ (b':' ∷ password) in
    let before : All (IsBefore b'@') user =
      All-append (IsBefore b'@') (c ∷ s) (b':' ∷ password) (name-IsBefore (c ∷ s) hn)
        (omega arith, password-IsBefore password hp) in
    let joined : ((c ∷ s) ++ (b':' ∷ (password ++ (b'@' ∷ [])))) ++ host ≡ user ++ (b'@' ∷ host) =
      simp append_assoc refl in
    rw
      (
        joined,
        cut-append b'@' user host before,
        cut-append b':' (c ∷ s) password (name_colon (c ∷ s) hn),
      )
      refl

host_port-text :
    (host port : Bytes)
    → All IsHostChar host
    → All IsHostChar port
    → host_port (host ++ signed b':' port) ≡ (host, port)
unfolding host_port port_at
host_port-text host [] hh hp =
    rw (append-nil host, cut_last-none b':' host (host_colon host hh)) refl
host_port-text host (c ∷ s) hh hp =
    rw
      (
        cut_last-append b':' host (c ∷ s) (host_colon (c ∷ s) hp),
        cut-none b'[' (host ++ (b':' ∷ c ∷ s)) (
            All-append (IsBefore b'[') host (b':' ∷ c ∷ s) (host_bracket host hh)
              (omega arith, host_bracket (c ∷ s) hp)),
      )
      refl

fragment-signed : (s : Bytes) → fragment_of (signed b'#' s) ≡ s
unfolding fragment_of
fragment-signed [] = refl
fragment-signed (c ∷ s) = refl

tail-stops :
    (query fragment : Bytes) → Stops is_path_end (signed b'?' query ++ signed b'#' fragment)
unfolding is_path_end
tail-stops [] [] = tt
tail-stops [] (c ∷ s) = refl
tail-stops (c ∷ q) fragment = refl

fragment-stops : (s : Bytes) → Stops (λ x. x == b'#') (signed b'#' s)
fragment-stops [] = tt
fragment-stops (c ∷ s) = refl

query-tail :
    (query fragment : Bytes)
    → All (λ c. c ≢ b'#') query
    → query_of (signed b'?' query ++ signed b'#' fragment) ≡ (query, signed b'#' fragment)
unfolding query_of
query-tail [] [] h = refl
query-tail [] (c ∷ s) h = refl
query-tail (c ∷ q) fragment h =
    until-append (λ x. x == b'#') (c ∷ q) (signed b'#' fragment)
      (All-map (λ c. c ≢ b'#') (λ c. (c == b'#') ≡ false) (λ c h. ground arith) (c ∷ q) h)
      (fragment-stops fragment)

path-rest :
    (path rest : Bytes)
    → IsRooted path
    → All IsPathChar path
    → Stops is_path_end rest
    → path_of (path ++ rest) ≡ (path, rest)
unfolding path_of
path-rest [] rest rooted h stops = absurd rooted
path-rest (c ∷ s) rest rooted h stops =
    rw
      (until-append is_path_end (c ∷ s) rest
        (All-map IsPathChar (λ c. is_path_end c ≡ false) (λ c h. unfold is_path_end in ground arith)
          (c ∷ s) h)
        stops)
      (ground arith)

path-stops : (path rest : Bytes) → IsRooted path → Stops is_authority_end (path ++ rest)
unfolding is_authority_end
path-stops [] rest h = absurd h
path-stops (c ∷ s) rest h = ground arith

-- If the parts are plain, parsing the text that is written for them gives exactly these parts: the
-- scheme, the user's name and password, if there is one of them, the host, the port, if there is one,
-- the path, and the query and the fragment that are not empty.
pub parse_url-url_text : (u : ParsedUrl) → IsPlain u → parse_url (url_text u) ≡ u
unfolding parse_url
parse_url-url_text u h =
    let info = userinfo_text u.username u.password in
    let authority = info ++ host_text u in
    let tail = tail_text u in
    let scheme : cut_word (codes "://") (url_text u)
        ≡ some (u.scheme, authority ++ (u.path ++ tail)) =
      cut_word-append b':' (codes "//") u.scheme (authority ++ (u.path ++ tail)) h.scheme
        (unfold strip_prefix in refl) in
    let stops : split_authority (authority ++ (u.path ++ tail)) ≡ (authority, u.path ++ tail) =
      split_authority-until (authority ++ (u.path ++ tail))
      ∙ until-append is_authority_end authority (u.path ++ tail) (authority-IsInside u h)
          (path-stops u.path tail h.rooted) in
    let user : userinfo (cut b'@' authority) ≡ ((u.username, u.password), host_text u) =
      userinfo-text u.username u.password (host_text u) h.username h.password (
        All-append (IsBefore b'@') u.hostname _ (host-IsBefore u.hostname h.hostname)
          (port-IsBefore b'@' u.port (omega arith) (host-IsBefore u.port h.port))) in
    let path : path_of (u.path ++ tail) ≡ (u.path, tail) =
      path-rest u.path tail h.rooted h.path (tail-stops u.query u.fragment) in
    rw (scheme, scheme_of, stops)
      (unfold parse_rest in
        rw
          (
            user,
            host_port-text u.hostname u.port h.hostname h.port,
            path,
            query-tail u.query u.fragment h.query,
            fragment-signed u.fragment,
          )
          refl)
