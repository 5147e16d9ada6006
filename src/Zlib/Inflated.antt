-- ===== src/Zlib/Inflated.antt =====
-- The loop of zlib.inflate: it ends, and the buffer holds the whole output.
use cqjs.Prelude.{
  ℕ, zero, suc, ◌-◌, ◌≤◌, ◌<◌, Option, some, List, [], ◌∷◌, ◌++◌, append_assoc, length,
  length-append, take-length_le, append-nil, Bytes, ◌*◌, ◌%◌, ◌^◌, codes, ◌⊎◌, inl, inr, ◌≡◌, refl,
  sym, ap, ◌∙◌, arith,
}
use mathlib.Core.Path.{subst}
use cqjs.Prelude.Int.{ℤ}
use cqjs.Format.Decimal.{int_text}
use cqjs.Script.{Arg, array_buffer, resolved, rejected}
use cqjs.Zlib.{
  Status, z_ok, z_stream_end, z_error, ZlibLibrary, Step, settled, room_for, inflate_rounds,
  Inflated, next_round, reply_to, first_cap, available, skipped, written_out, data_of, inflate_from,
  inflate_data, js_zlib_inflate,
}

-- A step of `inflate` at a stream that is to put out `output`, when there is room: more is to come, and
-- something was done; or the stream ends with what was left; or there is an error.
abbrev pub IsStep : {S : Type 0} → (S → Bytes) → (S → ℕ) → ℕ → S → Step S → Type 0
IsStep output left n zs (zs', piece, z_ok) =
    (length piece ≤ n) × (output zs ≡ piece ++ output zs') × (left zs' < left zs)
IsStep output left n zs (zs', piece, z_stream_end) = (length piece ≤ n) × (output zs ≡ piece)
IsStep output left n zs (zs', piece, z_error ret) = Unit

-- `output` is what a stream holds uncompressed, and `left` what is still to be read and written.
pub record IsInflate {S : Type 0} (zlib : ZlibLibrary S) (output : S → Bytes) (left : S → ℕ)
    : Type 0 where
  pub steps : (zs : S) (n : ℕ) → 0 < n → IsStep output left n zs (zlib.inflate zs n)

-- A call of zlib's inflate ends with the error.
abbrev pub Fails : {S : Type 0} → ZlibLibrary S → ℤ → Type 0
Fails {S} zlib ret = (zs : S) × (n : ℕ) × ((zlib.inflate zs n).2 ≡ z_error ret)

-- What was put out is the whole output, or zlib reported the error.
abbrev pub IsWhole : {S : Type 0} → ZlibLibrary S → Bytes → Bytes × Status → Type 0
IsWhole zlib whole (out, z_ok) = ⊥
IsWhole zlib whole (out, z_stream_end) = out ≡ whole
IsWhole zlib whole (out, z_error ret) = Fails zlib ret

small : (n : ℕ) → n < 2 ^ 32 → n % 2 ^ 32 ≡ n
small n h = omega arith

small' : (n : ℕ) → n < 2 ^ 32 → n % 2 ^ 64 ≡ n
small' n h = omega arith

room_for-lt :
    (n cap' : ℕ)
    → 0 < cap'
    → n ≤ cap'
    → cap' < 2 ^ 32
    → n * 2 < 2 ^ 32
    → (n < room_for n cap') × (room_for n cap' < 2 ^ 32)
unfolding room_for
room_for-lt n cap' pos h small_cap half = ground arith

-- When the room is what the buffer has left, nothing of it is passed over.
written_out-append :
    (fresh : ℕ → ℕ) (cap' : ℕ) (out piece : Bytes)
    → length out ≤ cap'
    → length piece ≤ cap' - length out
    → written_out fresh cap' (cap' - length out) out piece ≡ out ++ piece
unfolding written_out skipped
written_out-append fresh cap' out piece fits short =
    let none_left : cap' - (cap' - length out - length piece) - length (out ++ piece) ≡ 0 =
      omega (arith, length-append out piece) in
    rw (none_left) (append-nil (out ++ piece))

-- One round, for a rest of the loop that is right.
next_round-ends :
    {S : Type 0} (zlib : ZlibLibrary S) (output : S → Bytes) (left : S → ℕ) (cap' : ℕ) (zs : S)
    (out : Bytes) (step : Step S) (rest : Bytes → Inflated)
    → length out ≤ cap'
    → IsStep output left (cap' - length out) zs step
    → ((ret : ℤ) → step.2 ≡ z_error ret → Fails zlib ret)
    → (left step.0 < left zs
        → length (out ++ step.1) ≤ cap'
        → (out ++ step.1) ++ output step.0 ≡ out ++ output zs
        → (r : Bytes × Status) × (rest (out ++ step.1) ≡ some r)
          × IsWhole zlib ((out ++ step.1) ++ output step.0) r)
    → let out' = written_out zlib.fresh cap' (cap' - length out) out step.1 in
      (r : Bytes × Status) × (next_round step.2 out' (rest out') ≡ some r)
      × IsWhole zlib (out ++ output zs) r
unfolding next_round
next_round-ends zlib output left cap' zs out (zs', piece, z_ok) rest fits (short, same, fewer)
      failing later =
    let whole_same : (out ++ piece) ++ output zs' ≡ out ++ output zs =
      append_assoc out piece (output zs') ∙ ap (λ t. out ++ t) (sym same) in
    let (r, e, whole) = later fewer (omega (arith, length-append out piece)) whole_same in
    (
      r,
      ap rest (written_out-append zlib.fresh cap' out piece fits short) ∙ e,
      subst (λ w. IsWhole zlib w r) whole_same whole,
    )
next_round-ends zlib output left cap' zs out (zs', piece, z_stream_end) rest fits (short, same)
      failing later =
    (
      (written_out zlib.fresh cap' (cap' - length out) out piece, z_stream_end),
      refl,
      written_out-append zlib.fresh cap' out piece fits short ∙ ap (λ t. out ++ t) (sym same),
    )
next_round-ends zlib output left cap' zs out (zs', piece, z_error ret) rest fits same failing
      later =
    (
      (written_out zlib.fresh cap' (cap' - length out) out piece, z_error ret),
      refl,
      failing ret refl,
    )

module _ {S : Type 0} (zlib : ZlibLibrary S) (output : S → Bytes) (left : S → ℕ) where
  inflate_rounds-ends :
      IsInflate zlib output left
      → (fuel : ℕ) (zs : S) (out : Bytes) (out_cap : ℕ) → 0 < out_cap
      → length out ≤ out_cap
      → out_cap < 2 ^ 32
      → length (out ++ output zs) * 2 < 2 ^ 32
      → left zs < fuel
      → (r : Bytes × Status) × (inflate_rounds zlib fuel zs out out_cap ≡ some r)
        × IsWhole zlib (out ++ output zs) r
  unfolding inflate_rounds
  inflate_rounds-ends is_inflate zero zs out out_cap pos fits cap_small half h =
      absurd (omega arith)
  inflate_rounds-ends is_inflate (suc fuel) zs out out_cap pos fits cap_small half h =
      let cap' = room_for (length out) out_cap in
      let half' : length out * 2 < 2 ^ 32 = omega (arith, length-append out (output zs)) in
      let (room, small_cap) = room_for-lt (length out) out_cap pos fits cap_small half' in
      rw (small (cap' - length out) (omega arith)) (
        next_round-ends zlib output left cap' zs out (zlib.inflate zs (cap' - length out))
          (λ out'. inflate_rounds zlib fuel (zlib.inflate zs (cap' - length out)).0 out' cap')
          (omega arith) (is_inflate.steps zs (cap' - length out) (omega arith))
          (λ ret e. (zs, cap' - length out, e))
          (λ fewer short same.
            inflate_rounds-ends is_inflate fuel (zlib.inflate zs (cap' - length out)).0
              (out ++ (zlib.inflate zs (cap' - length out)).1) cap' (omega arith) short small_cap
              (omega (arith, ap length same)) (omega arith)))

  first_cap-pos :
      (input : Bytes)
      → length input * 4 < 2 ^ 32
      → (0 < first_cap input) × (first_cap input < 2 ^ 32)
  unfolding first_cap
  first_cap-pos input h = rw (small' (length input * 4) h) (ground arith)

  available-all : (input : Bytes) → length input * 4 < 2 ^ 32 → available input ≡ input
  available-all input h =
      take-length_le (length input % 2 ^ 32) input
        (omega (arith, small (length input) (omega arith)))

  reply_of-whole :
      (whole : Bytes) (r : Bytes × Status)
      → IsWhole zlib whole r
      → (settled (codes "inflate") r.0 r.1 ≡ resolved (array_buffer whole))
        ⊎ ((ret : ℤ) × Fails zlib ret
            × (settled (codes "inflate") r.0 r.1
                ≡ rejected (codes "inflate error: " ++ int_text ret)))
  unfolding settled
  reply_of-whole whole (out, z_ok) h = absurd h
  reply_of-whole whole (out, z_stream_end) h = inl (ap (λ t. resolved (array_buffer t)) h)
  reply_of-whole whole (out, z_error ret) h = inr (ret, h, refl)

  -- For data below 1 GB that hold less than 2 GB uncompressed, and a stream that can be set up for them,
  -- with a round for each step of progress that zlib can make with it and one more, the loop of
  -- inflate ends: the promise is resolved with all that the data hold uncompressed, or rejected with
  -- the text of an error that a call of zlib's inflate ended with.
  pub js_zlib_inflate-settles :
      IsInflate zlib output left
      → (input : Bytes) (text : Option Bytes) (others : List Arg) (zs : S) (fuel : ℕ)
      → length input * 4 < 2 ^ 32
      → length (output zs) * 2 < 2 ^ 32
      → zlib.start_inflate input ≡ some zs
      → left zs < fuel
      → (js_zlib_inflate zlib fuel (record { buffer = some input; text = text } ∷ others)
          ≡ some (resolved (array_buffer (output zs))))
        ⊎ ((ret : ℤ) × Fails zlib ret
            × (js_zlib_inflate zlib fuel (record { buffer = some input; text = text } ∷ others)
                ≡ some (rejected (codes "inflate error: " ++ int_text ret))))
  unfolding js_zlib_inflate inflate_data inflate_from data_of reply_to
  js_zlib_inflate-settles is_inflate input text others zs fuel short half started h =
      let (pos, small_cap) = first_cap-pos input short in
      let (r, e, whole) =
        inflate_rounds-ends is_inflate fuel zs [] (first_cap input) pos (omega arith) small_cap half
          h in
      rw (available-all input short, started, e)
        (elim (reply_of-whole (output zs) r whole) [
          | inl s ↦ inl (ap some s)
          | inr (ret, fails, s) ↦ inr (ret, fails, ap some s)
        ])
