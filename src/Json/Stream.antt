-- ===== src/Json/Stream.antt =====
-- The standard output, as a client that reads lines sees it.
use cqjs.Prelude.{
  ℕ, List, [], ◌∷◌, ◌++◌, map, append_assoc, append-nil, All, Bytes, ◌==◌, if◌then◌else◌, ◌≡◌, refl,
  sym, ap, ◌∙◌, arith,
}
use cqjs.Json.{Response, send_json_response, cqjs_send_response}
use cqjs.Json.Escape.{IsPrintable}
use cqjs.Json.Line.{IsPrintableIf, send_json_response-IsPrintable}

-- A character in front of the lines and of what follows the last line break.
abbrev pub in_front : ℕ → List Bytes × Bytes → List Bytes × Bytes
in_front c ([], rest) = ([], c ∷ rest)
in_front c (l ∷ ls, rest) = ((c ∷ l) ∷ ls, rest)

abbrev pub new_line : List Bytes × Bytes → List Bytes × Bytes
new_line (ls, rest) = ([] ∷ ls, rest)

-- The lines of a text, and what follows the last line break.
abbrev pub split_lines : Bytes → List Bytes × Bytes
split_lines [] = ([], [])
split_lines (c ∷ s) =
    let rest = split_lines s in if c == b'\n' then new_line rest else in_front c rest

-- All responses are sent, from the first on.
abbrev pub send_all : List Response → Bytes → Bytes
send_all [] out = out
send_all (r ∷ rs) out = send_all rs (cqjs_send_response (send_json_response r) out)

-- What is passed on as raw JSON holds no line break.
abbrev pub IsSendable : Response → Type 0
IsSendable r = IsPrintableIf r.value r.value_is_raw × IsPrintableIf r.data_text r.data_is_raw

split_lines-line :
    (line t : Bytes)
    → All IsPrintable line
    → split_lines (line ++ b'\n' ∷ t) ≡ (line ∷ (split_lines t).0, (split_lines t).1)
split_lines-line [] t h = refl
split_lines-line (c ∷ line) t (hc, h) = ground (arith, split_lines-line line t h)

stream : List Response → Bytes
stream [] = []
stream (r ∷ rs) = send_json_response r ++ b'\n' ∷ stream rs

send_all-stream : (rs : List Response) (out : Bytes) → send_all rs out ≡ out ++ stream rs
unfolding stream cqjs_send_response
send_all-stream [] out = sym (append-nil out)
send_all-stream (r ∷ rs) out =
    send_all-stream rs _
    ∙ append_assoc out (send_json_response r ++ b'\n' ∷ []) (stream rs)
    ∙ ap (λ x. out ++ x) (append_assoc (send_json_response r) (b'\n' ∷ []) (stream rs))

split_lines-stream :
    (rs : List Response)
    → All IsSendable rs
    → split_lines (stream rs) ≡ (map send_json_response rs, [])
unfolding stream
split_lines-stream [] h = refl
split_lines-stream (r ∷ rs) ((hv, hd), h) =
    split_lines-line (send_json_response r) (stream rs) (send_json_response-IsPrintable r hv hd)
    ∙ ap (λ x. (send_json_response r ∷ x.0, x.1)) (split_lines-stream rs h)

-- If what is passed on as raw JSON holds no control character, a client that splits the output at the
-- line breaks gets exactly the lines of the responses, in the order in which they were sent, whatever
-- strings the responses hold.
pub split_lines-send_all :
    (rs : List Response)
    → All IsSendable rs
    → split_lines (send_all rs []) ≡ (map send_json_response rs, [])
split_lines-send_all rs h = ap split_lines (send_all-stream rs []) ∙ split_lines-stream rs h
