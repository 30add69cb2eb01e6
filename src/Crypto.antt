-- ===== src/Crypto.antt =====
-- common/crypto.cpp: `base64_encode` and `base64_decode`, byte by byte, with the 32-bit accumulator
-- and the buffer that the encoder fills in place.
mod Examples
pub mod Bits
pub mod Tables
pub mod Encode
pub mod RoundTrip
use Prim.Native.Nat.{bit_and, bit_or}
use binance_monitor.Base.{
  ltb, leb, ◌==◌, if◌then◌else◌, length, set, replicate, Text, ℕ, zero, suc, ◌+◌, ◌-◌, ◌*◌, ◌/◌,
  ◌%◌, ◌^◌, Bool, true, false, ◌&&◌, ◌||◌, Option, none, some, [], ◌∷◌, ◌++◌,
}
use Tables.{b64_table, reverse_table}

-- `unsigned int`, and `std::size_t`.
abbrev pub u32_mod : ℕ
u32_mod = 2 ^ 32

abbrev pub size_mod : ℕ
size_mod = 2 ^ 64

-- The local variables of `base64_encode`. `retval` is filled with `=` before the loop.
pub record Encoder : Type 0 where
  pub retval : Text
  pub outpos : ℕ
  pub bits_collected : ℕ
  pub accumulator : ℕ

-- `retval[outpos++] = c`
pub put : Encoder → ℕ → Encoder
put e c = record e { retval = set e.retval e.outpos c; outpos = e.outpos + 1 }

-- The sextet above the lowest `bits` bits of the accumulator.
pub sextet : ℕ → ℕ → ℕ
sextet acc bits = bit_and (acc / 2 ^ bits) 0x3f

-- `while (bits_collected >= 6)`. Every round takes six bits, so as many rounds as bits are enough.
pub drain : ℕ → Encoder → Encoder
drain zero e = e
drain (suc fuel) e = elim (leb 6 e.bits_collected) [
  | true ↦
      let bits = e.bits_collected - 6 in
      drain fuel (put (record e { bits_collected = bits }) (b64_table (sextet e.accumulator bits)))
  | false ↦ e
]

-- `(accumulator << 8) | (i & 0xffu)`
pub shift_in : ℕ → ℕ → ℕ
shift_in acc i = bit_or (acc * 2 ^ 8 % u32_mod) (bit_and i 0xff)

pub encode_byte : Encoder → ℕ → Encoder
encode_byte e i =
    drain (e.bits_collected + 8)
      (record e { accumulator = shift_in e.accumulator i; bits_collected = e.bits_collected + 8 })

pub encode_loop : Text → Encoder → Encoder
encode_loop [] e = e
encode_loop (i ∷ rest) e = encode_loop rest (encode_byte e i)

-- The bits that are left after the loop.
pub encode_rest : Encoder → Encoder
encode_rest e =
    if ltb 0 e.bits_collected
    then (let acc = e.accumulator * 2 ^ (6 - e.bits_collected) % u32_mod in
        put (record e { accumulator = acc }) (b64_table (bit_and acc 0x3f)))
    else e

pub encoded_size : ℕ → ℕ
encoded_size binlen = (binlen + 2) / 3 * 4

pub encoder : ℕ → Encoder
encoder binlen = record {
  retval = replicate (encoded_size binlen) b'=';
  outpos = 0;
  bits_collected = 0;
  accumulator = 0;
}

pub encode_run : Text → Encoder
encode_run bindata = encode_rest (encode_loop bindata (encoder (length bindata)))

-- `none` is the `std::length_error`.
pub base64_encode : Text → Option Text
base64_encode bindata =
    if ltb ((size_mod - 1) / 4 * 3) (length bindata) then none else some (encode_run bindata).retval

-- The two assertions before the return, in `std::size_t` arithmetic.
pub assertions_hold : Encoder → Bool
assertions_hold e =
    let size = length e.retval in
    leb ((size + size_mod - 2) % size_mod) e.outpos && leb e.outpos size

-- The local variables of `base64_decode`.
pub record Decoder : Type 0 where
  pub ret_val : Text
  pub received : ℕ
  pub window : ℕ

-- `std::isspace` in the "C" locale.
pub is_space : ℕ → Bool
is_space c = (leb 9 c && leb c 13) || c == 32

-- `(accumulator << 6) | reverse_table[c]`
pub shift_in_sextet : ℕ → ℕ → ℕ
shift_in_sextet acc v = bit_or (acc * 2 ^ 6 % u32_mod) v

pub take_sextet : Decoder → ℕ → Decoder
take_sextet d v =
    let acc = shift_in_sextet d.window v in
    let bits = d.received + 6 in
    if leb 8 bits
    then record {
      ret_val = d.ret_val ++ bit_and (acc / 2 ^ (bits - 8)) 0xff ∷ [];
      received = bits - 8;
      window = acc;
    }
    else record d { received = bits; window = acc }

-- `none` is the `std::invalid_argument`. A byte from 128 on is a negative `char`, or one above 127.
pub decode_loop : Text → Decoder → Option Text
decode_loop [] d = some d.ret_val
decode_loop (c ∷ rest) d = elim (is_space c || c == b'=') [
  | true ↦ decode_loop rest d
  | false ↦ elim (ltb 127 c || ltb 63 (reverse_table c)) [
    | true ↦ none
    | false ↦ decode_loop rest (take_sextet d (reverse_table c))
  ]
]

pub base64_decode : Text → Option Text
base64_decode asc_data = decode_loop asc_data (record { ret_val = []; received = 0; window = 0 })
