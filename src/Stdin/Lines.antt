-- ===== src/Stdin/Lines.antt =====
-- The thread pushes the lines of the input, however `fgets` cuts them.
use cqjs.Prelude.{
  true, false, List, [], ◌∷◌, ◌++◌, append_assoc, append-nil, All, All-append_inv, Bytes, strip_end,
  strip_end-snoc, strip_end-none, ◌≡◌, refl, sym, ap, ◌∙◌,
}
use mathlib.Core.Path.{subst}
use cqjs.Stdin.{
  Reader, stdin_reader_push, is_end, ends_line, push_line, read_chunk, read_chunks,
  stdin_reader_thread,
}

-- A line, as `fgets` delivers it: pieces that fill its buffer, and the last with the line break.
pub record Cut : Type 0 where
  pub pieces : List Bytes
  pub last : Bytes

abbrev pub concat : List Bytes → Bytes
concat [] = []
concat (s ∷ ss) = s ++ concat ss

abbrev pub line_of : Cut → Bytes
line_of c = concat c.pieces ++ c.last

abbrev pub chunks_of : Cut → List Bytes
chunks_of c = c.pieces ++ (c.last ++ b'\n' ∷ []) ∷ []

-- No character that ends a line.
abbrev pub IsClean : Bytes → Type 0
IsClean = All (λ c. is_end c ≡ false)

-- The lines that are not empty.
abbrev pub filled : List Bytes → List Bytes
filled [] = []
filled ([] ∷ ls) = filled ls
filled ((c ∷ s) ∷ ls) = (c ∷ s) ∷ filled ls

abbrev pub all_chunks : List Cut → List Bytes
all_chunks [] = []
all_chunks (c ∷ cs) = chunks_of c ++ all_chunks cs

abbrev pub all_lines : List Cut → List Bytes
all_lines [] = []
all_lines (c ∷ cs) = line_of c ∷ all_lines cs

ends_line-IsClean : (s : Bytes) → IsClean s → ends_line s ≡ false
unfolding ends_line
ends_line-IsClean [] h = refl
ends_line-IsClean (c ∷ []) (hc, h) = hc
ends_line-IsClean (c ∷ d ∷ s) (hc, h) = ends_line-IsClean (d ∷ s) h

ends_line-break : (s : Bytes) → ends_line (s ++ b'\n' ∷ []) ≡ true
unfolding ends_line is_end
ends_line-break [] = refl
ends_line-break (c ∷ []) = refl
ends_line-break (c ∷ d ∷ s) = ends_line-break (d ∷ s)

read_chunks-append :
    (xs ys : List Bytes) (st : Bytes × Reader)
    → read_chunks (xs ++ ys) st ≡ read_chunks ys (read_chunks xs st)
unfolding read_chunks
read_chunks-append [] ys st = refl
read_chunks-append (x ∷ xs) ys st = read_chunks-append xs ys (read_chunk x st)

read-pieces :
    (ps : List Bytes) (buf : Bytes) (sr : Reader)
    → IsClean (buf ++ concat ps)
    → read_chunks ps (buf, sr) ≡ (buf ++ concat ps, sr)
unfolding read_chunks
read-pieces [] buf sr h = ap (λ s. (s, sr)) (sym (append-nil buf))
read-pieces (p ∷ ps) buf sr h =
    let joined : (buf ++ p) ++ concat ps ≡ buf ++ (p ++ concat ps) =
      append_assoc buf p (concat ps) in
    let clean : IsClean ((buf ++ p) ++ concat ps) = subst IsClean (sym joined) h in
    let stays : read_chunk p (buf, sr) ≡ (buf ++ p, sr) =
      unfold read_chunk in
      rw (ends_line-IsClean (buf ++ p) (All-append_inv _ (buf ++ p) (concat ps) clean).0) refl in
    ap (read_chunks ps) stays ∙ read-pieces ps (buf ++ p) sr clean ∙ ap (λ s. (s, sr)) joined

strip-line : (s : Bytes) → IsClean s → strip_end is_end (s ++ b'\n' ∷ []) ≡ s
strip-line s h = unfold is_end in (strip_end-snoc is_end s b'\n' ∙ strip_end-none is_end s h)

read-line :
    (c : Cut) (sr : Reader)
    → IsClean (line_of c)
    → read_chunks (chunks_of c) ([], sr) ≡ ([], push_line sr (line_of c))
read-line c sr h =
    let (front, back) = All-append_inv _ (concat c.pieces) c.last h in
    let joined : concat c.pieces ++ (c.last ++ b'\n' ∷ []) ≡ line_of c ++ b'\n' ∷ [] =
      sym (append_assoc (concat c.pieces) c.last (b'\n' ∷ [])) in
    read_chunks-append c.pieces _ ([], sr)
    ∙ ap (read_chunks ((c.last ++ b'\n' ∷ []) ∷ [])) (read-pieces c.pieces [] sr front)
    ∙ (unfold read_chunks read_chunk in
        rw (joined, ends_line-break (line_of c), strip-line (line_of c) h) refl)

lines-push_line : (sr : Reader) (s : Bytes) → (push_line sr s).lines ≡ sr.lines ++ filled (s ∷ [])
unfolding push_line stdin_reader_push
lines-push_line sr [] = sym (append-nil sr.lines)
lines-push_line sr (c ∷ s) = refl

filled-cons : (s : Bytes) (ls : List Bytes) → filled (s ∷ []) ++ filled ls ≡ filled (s ∷ ls)
filled-cons [] ls = refl
filled-cons (c ∷ s) ls = refl

-- If no line holds a carriage return, then for any way to cut the lines into pieces the lines that are
-- not empty are pushed, in order, behind those that are there. What follows the last line break, also
-- cut into pieces, is not pushed.
pub stdin_reader_thread-lines :
    (cs : List Cut) (rest : List Bytes) (sr : Reader)
    → All (λ c. IsClean (line_of c)) cs
    → IsClean (concat rest)
    → (stdin_reader_thread (all_chunks cs ++ rest) sr).lines ≡ sr.lines ++ filled (all_lines cs)
unfolding stdin_reader_thread
stdin_reader_thread-lines [] rest sr h hr =
    ap (λ x. Reader.lines x.1) (read-pieces rest [] sr hr) ∙ sym (append-nil sr.lines)
stdin_reader_thread-lines (c ∷ cs) rest sr (hc, h) hr =
    let next = push_line sr (line_of c) in
    ap (λ x. Reader.lines (read_chunks x ([], sr)).1)
      (append_assoc (chunks_of c) (all_chunks cs) rest)
    ∙ ap (λ x. Reader.lines x.1) (read_chunks-append (chunks_of c) (all_chunks cs ++ rest) ([], sr))
    ∙ ap (λ x. Reader.lines (read_chunks (all_chunks cs ++ rest) x).1) (read-line c sr hc)
    ∙ stdin_reader_thread-lines cs rest next h hr
    ∙ ap (λ l. l ++ filled (all_lines cs)) (lines-push_line sr (line_of c))
    ∙ append_assoc sr.lines (filled (line_of c ∷ [])) (filled (all_lines cs))
    ∙ ap (λ l. sr.lines ++ l) (filled-cons (line_of c) (all_lines cs))
