-- ===== src/Zlib.antt =====
-- zlib.inflate and zlib.deflate (polyfill/zlib.c). The functions of zlib are the fields of a record
-- over the states of a stream. The casts of lengths to `uInt` and the wrap-around of `size_t` are written
-- out: zlib sees the data and the room that the casts leave.
pub mod Inflated
mod Tests
use cqjs.Prelude.{
  ℕ, zero, suc, ◌-◌, ◌*◌, Option, none, some, List, [], ◌∷◌, ◌++◌, length, take, Bytes, codes, leb,
  ltb, ◌%◌, ◌^◌, if◌then◌else◌,
}
use cqjs.Prelude.Int.{ℤ}
use cqjs.Format.Decimal.{int_text}
use cqjs.Script.{Arg, Reply, exception, type_error, array_buffer, resolved, rejected}

-- `Z_OK`, `Z_STREAM_END` and the other codes.
pub data Status : Type 0 where
  z_ok z_stream_end : Status
  z_error : ℤ → Status

-- What a call changes: the stream, what it writes and its result.
abbrev pub Step : Type 0 → Type 0
Step S = S × Bytes × Status

-- `start_inflate` and `start_deflate` set up a stream for the input, `none` for a failure; `inflate`
-- is given the room in the buffer and yields what it writes there, `deflate` likewise with all input
-- to be finished. `fresh` are the bytes of a buffer that nothing was written to.
pub record ZlibLibrary (S : Type 0) : Type 0 where
  pub start_inflate : Bytes → Option S
  pub inflate : S → ℕ → Step S
  pub start_deflate : Bytes → Option S
  pub deflate_bound : S → ℕ → ℕ
  pub deflate : S → ℕ → Step S
  pub fresh : ℕ → ℕ

-- A buffer, or the bytes of a string.
data_of : Option Bytes → Option Bytes → Option Bytes
data_of (some buf) text = some buf
data_of none text = text

unfoldable pub settled : Bytes → Bytes → Status → Reply
settled name out z_stream_end = resolved (array_buffer out)
settled name out z_ok = rejected (name ++ (codes " error: " ++ int_text (ℤ.pos 0)))
settled name out (z_error ret) = rejected (name ++ (codes " error: " ++ int_text ret))

-- `out_cap *= 2` when the buffer is full.
unfoldable pub room_for : ℕ → ℕ → ℕ
room_for out_len out_cap = if leb out_cap out_len then out_cap * 2 % 2 ^ 64 else out_cap

abbrev pub Inflated : Type 0
Inflated = Option (Bytes × Status)

-- `while (ret == Z_OK)`
next_round : Status → Bytes → Inflated → Inflated
next_round z_ok out more = more
next_round z_stream_end out more = some (out, z_stream_end)
next_round (z_error ret) out more = some (out, z_error ret)

reply_to : Bytes → Inflated → Option Reply
unfolding settled
reply_to name none = none
reply_to name (some (out, ret)) = some (settled name out ret)

-- `out_cap = data_len * 4`, at least 1024.
first_cap : Bytes → ℕ
first_cap input =
    let out_cap = length input * 4 % 2 ^ 64 in if ltb out_cap 1024 then 1024 else out_cap

-- `avail_in = (uInt)data_len`
abbrev pub available : Bytes → Bytes
available input = take (length input % 2 ^ 32) input

-- The bytes from one place of a buffer to another that are passed over.
unfoldable pub skipped : (ℕ → ℕ) → ℕ → ℕ → Bytes
skipped fresh from zero = []
skipped fresh from (suc n) = fresh from ∷ skipped fresh (suc from) n

-- The first `out_cap - avail_out` bytes of the buffer after a call that was given `room` and wrote
-- the piece behind what was there.
unfoldable pub written_out : (ℕ → ℕ) → ℕ → ℕ → Bytes → Bytes → Bytes
written_out fresh out_cap room out piece =
    let written = out ++ piece in
    written ++ skipped fresh (length written) (out_cap - (room - length piece) - length written)

module _ {S : Type 0} (zlib : ZlibLibrary S) where
  -- The loop; `none` means that the fuel, one round for each call of `inflate`, ran out.
  unfoldable pub inflate_rounds : ℕ → S → Bytes → ℕ → Inflated
  unfolding next_round room_for written_out
  inflate_rounds zero zs out out_cap = none
  inflate_rounds (suc fuel) zs out out_cap =
      let cap = room_for (length out) out_cap in
      let room = (cap - length out) % 2 ^ 32 in
      let step = zlib.inflate zs room in
      let out' = written_out zlib.fresh cap room out step.1 in
      next_round step.2 out' (inflate_rounds fuel step.0 out' cap)

  inflate_from : ℕ → Bytes → Option S → Option Reply
  unfolding inflate_rounds reply_to first_cap
  inflate_from fuel input none = some (rejected (codes "inflate: init failed"))
  inflate_from fuel input (some zs) =
      reply_to (codes "inflate") (inflate_rounds fuel zs [] (first_cap input))

  inflate_data : ℕ → Option Bytes → Option Reply
  unfolding inflate_from
  inflate_data fuel none = some exception
  inflate_data fuel (some input) = inflate_from fuel input (zlib.start_inflate (available input))

  pub js_zlib_inflate : ℕ → List Arg → Option Reply
  unfolding inflate_data data_of
  js_zlib_inflate fuel [] = some (type_error (codes "inflate requires 1 argument"))
  js_zlib_inflate fuel (a ∷ others) = inflate_data fuel (data_of a.buffer a.text)

  deflate_from : Bytes → Option S → Reply
  unfolding settled written_out
  deflate_from input none = rejected (codes "deflate: init failed")
  deflate_from input (some zs) =
      let out_cap = zlib.deflate_bound zs (length input) in
      let room = out_cap % 2 ^ 32 in
      let step = zlib.deflate zs room in
      settled (codes "deflate") (written_out zlib.fresh out_cap room [] step.1) step.2

  deflate_data : Option Bytes → Reply
  unfolding deflate_from
  deflate_data none = exception
  deflate_data (some input) = deflate_from input (zlib.start_deflate (available input))

  pub js_zlib_deflate : List Arg → Reply
  unfolding deflate_data data_of
  js_zlib_deflate [] = type_error (codes "deflate requires 1 argument")
  js_zlib_deflate (a ∷ others) = deflate_data (data_of a.buffer a.text)
