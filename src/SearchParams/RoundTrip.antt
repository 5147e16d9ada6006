-- ===== src/SearchParams/RoundTrip.antt =====
-- Parsing what `toString` writes.
use cqjs.Prelude.{
  some, List, [], ◌∷◌, ◌++◌, append_assoc, append-nil, All, All-append, Bytes, ◌≡◌, ◌≢◌, refl, sym,
  ap, ◌∙◌, arith, cut-append,
}
use cqjs.SearchParams.{Param, param_of, emit, split_pairs, sp_parse, pair_text, more_pairs, sp_text}

-- No `&`.
abbrev pub IsOne : Bytes → Type 0
IsOne = All (λ c. c ≢ b'&')

-- A parameter whose pair is read as it was written.
pub record IsPlain (p : Param) : Type 0 where
  pub key_one : IsOne p.key
  pub key_plain : All (λ c. c ≢ b'=') p.key
  pub text_one : IsOne p.text

emit-pair_text : (p : Param) (ps : List Param) → IsPlain p → emit (pair_text p) ps ≡ p ∷ ps
unfolding emit param_of
emit-pair_text p ps h = go p.key p.text h.key_plain
  where
    go :
        (k t : Bytes)
        → All (λ c. c ≢ b'=') k
        → emit (k ++ (b'=' ∷ t)) ps ≡ record { key = k; text = t } ∷ ps
    go [] t h = ap (λ x. param_of x ∷ ps) (cut-append b'=' [] t h)
    go (c ∷ k) t h = ap (λ x. param_of x ∷ ps) (cut-append b'=' (c ∷ k) t h)

split-append :
    (token s rest : Bytes) → IsOne s → split_pairs token (s ++ rest) ≡ split_pairs (token ++ s) rest
split-append token [] rest h = ap (λ t. split_pairs t rest) (sym (append-nil token))
split-append token (c ∷ s) rest (hc, h) =
    let longer : split_pairs token (c ∷ (s ++ rest)) ≡ split_pairs (token ++ c ∷ []) (s ++ rest) =
      unfold split_pairs in ground (arith, hc) in
    longer
    ∙ split-append (token ++ c ∷ []) s rest h
    ∙ ap (λ t. split_pairs t rest) (append_assoc token (c ∷ []) s)

pair_text-IsOne : (p : Param) → IsPlain p → IsOne (pair_text p)
pair_text-IsOne p h = All-append _ p.key (b'=' ∷ p.text) h.key_one (omega arith, h.text_one)

split-more_pairs :
    (p : Param) (ps : List Param)
    → IsPlain p
    → All IsPlain ps
    → split_pairs (pair_text p) (more_pairs ps) ≡ p ∷ ps
unfolding more_pairs
split-more_pairs p [] h hs = unfold split_pairs in emit-pair_text p [] h
split-more_pairs p (q ∷ ps) h (hq, hs) =
    let ends : split_pairs (pair_text p) (b'&' ∷ (pair_text q ++ more_pairs ps))
        ≡ emit (pair_text p) (split_pairs [] (pair_text q ++ more_pairs ps)) =
      unfold split_pairs in refl in
    ends
    ∙ ap (emit (pair_text p)) (
        split-append [] (pair_text q) (more_pairs ps) (pair_text-IsOne q hq)
        ∙ split-more_pairs q ps hq hs)
    ∙ emit-pair_text p (q ∷ ps) h

-- The key does not start with `?`.
abbrev pub IsKey : Bytes → Type 0
IsKey [] = Unit
IsKey (c ∷ s) = c ≢ b'?'

-- The first key, if there is one, does not.
abbrev pub IsUnmarked : List Param → Type 0
IsUnmarked [] = Unit
IsUnmarked (p ∷ ps) = IsKey p.key

parse-unmarked :
    (k t more : Bytes)
    → IsKey k
    → sp_parse (some ((k ++ (b'=' ∷ t)) ++ more)) ≡ split_pairs [] ((k ++ (b'=' ∷ t)) ++ more)
unfolding sp_parse
parse-unmarked [] t more h = refl
parse-unmarked (c ∷ k) t more h = ground (arith, h)

-- Parsing the text of a list of parameters gives that list if no key holds `&` or `=`, no text holds `&`
-- and the first key does not start with `?`.
pub sp_parse-sp_text :
    (ps : List Param) → All IsPlain ps → IsUnmarked ps → sp_parse (some (sp_text ps)) ≡ ps
unfolding sp_text
sp_parse-sp_text [] h hm = unfold sp_parse in refl
sp_parse-sp_text (p ∷ ps) (h, hs) hm =
    parse-unmarked p.key p.text (more_pairs ps) hm
    ∙ split-append [] (pair_text p) (more_pairs ps) (pair_text-IsOne p h)
    ∙ split-more_pairs p ps h hs
