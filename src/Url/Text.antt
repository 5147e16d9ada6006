-- ===== src/Url/Text.antt =====
-- The text that is written for the parts of a URL, and which parts can be told apart in it.
use cqjs.Prelude.{ℕ, [], ◌∷◌, ◌++◌, All, Bytes, codes, ◌≡◌, ◌≢◌}
use cqjs.Url.{ParsedUrl, signed}

-- The characters of a user's name, of a password, of a host or a port, and of a path.
abbrev pub IsNameChar : ℕ → Type 0
IsNameChar c = (c ≢ b'/') × (c ≢ b'?') × (c ≢ b'#') × (c ≢ b'@') × (c ≢ b':')

abbrev pub IsPasswordChar : ℕ → Type 0
IsPasswordChar c = (c ≢ b'/') × (c ≢ b'?') × (c ≢ b'#') × (c ≢ b'@')

abbrev pub IsHostChar : ℕ → Type 0
IsHostChar c = (c ≢ b'/') × (c ≢ b'?') × (c ≢ b'#') × (c ≢ b'@') × (c ≢ b':') × (c ≢ b'[')

abbrev pub IsPathChar : ℕ → Type 0
IsPathChar c = (c ≢ b'?') × (c ≢ b'#')

abbrev pub IsRooted : Bytes → Type 0
IsRooted [] = ⊥
IsRooted (c ∷ s) = c ≡ b'/'

-- Parts that can be told apart in the text of the URL.
pub record IsPlain (u : ParsedUrl) : Type 0 where
  pub scheme : All (λ c. c ≢ b':') u.scheme
  pub username : All IsNameChar u.username
  pub password : All IsPasswordChar u.password
  pub hostname : All IsHostChar u.hostname
  pub port : All IsHostChar u.port
  pub rooted : IsRooted u.path
  pub path : All IsPathChar u.path
  pub query : All (λ c. c ≢ b'#') u.query

abbrev pub userinfo_text : Bytes → Bytes → Bytes
userinfo_text [] [] = []
userinfo_text [] (c ∷ s) = b':' ∷ ((c ∷ s) ++ (b'@' ∷ []))
userinfo_text (c ∷ s) password = (c ∷ s) ++ (b':' ∷ (password ++ (b'@' ∷ [])))

abbrev pub host_text : ParsedUrl → Bytes
host_text u = u.hostname ++ signed b':' u.port

abbrev pub tail_text : ParsedUrl → Bytes
tail_text u = signed b'?' u.query ++ signed b'#' u.fragment

-- The text of a URL with these parts.
abbrev pub url_text : ParsedUrl → Bytes
url_text u =
    u.scheme
    ++ (codes "://"
        ++ ((userinfo_text u.username u.password ++ host_text u) ++ (u.path ++ tail_text u)))
