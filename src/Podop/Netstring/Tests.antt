-- ===== src/Podop/Netstring/Tests.antt =====
-- A netstring in three reads, and the theorem at it.
use mathlib.Core.Option
use mailu.Prelude.{
  ◌≡◌, refl, none, some, List, [], ◌∷◌, arith, Bytes, codes, decimal, is_digit, read_digits,
}
use mailu.Podop.Netstring.{
  zeros, init_buffer, find, fill, is_number, detect, deliver, data_received, send_string, receive,
}
use mailu.Podop.Netstring.Buffer.Chunks.{receive-send_string}

abbrev reads : List Bytes
reads = codes "1" ∷ codes "2:map someb" ∷ codes "ody," ∷ []

receive-send_string_example :
    receive reads init_buffer ≡ some (init_buffer, codes "map somebody" ∷ [])
unfolding send_string decimal
receive-send_string_example = receive-send_string (codes "map somebody") reads refl (omega arith)

-- two netstrings in one read are not told apart
together : Option.map (λ r. r.1) (receive (codes "1:a,1:b," ∷ []) init_buffer) ≡ some []
unfolding receive data_received fill detect deliver is_number find zeros init_buffer read_digits
    is_digit
together = refl

-- a read beyond the buffer is an exception
too_long : data_received (zeros 1025) init_buffer ≡ none
unfolding data_received init_buffer zeros
too_long = refl
