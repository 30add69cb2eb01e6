-- ===== src/Crypto/Encode.antt =====
-- `base64_encode` of common/crypto.cpp, three bytes at a time, and its padding.
pub mod Standard
use binance_monitor.Base.{
  leb, length, length-append, set, replicate, set-append, Text, ℕ, suc, ◌+◌, ◌-◌, ◌*◌, ◌/◌, ◌%◌,
  ◌^◌, ◌<◌, ◌≡◌, refl, sym, ap, ◌∙◌, true, false, [], ◌∷◌, ◌++◌, append_assoc, arith,
}
use binance_monitor.Crypto.Bits.{bit_or_byte, bit_and_byte, bit_and_sextet}
use binance_monitor.Crypto.Tables.{b64_table}
use binance_monitor.Crypto.{
  Encoder, u32_mod, size_mod, put, sextet, drain, shift_in, encode_byte, encode_loop, encode_rest,
  encoder, encoded_size, encode_run, base64_encode, assertions_hold,
}

-- RFC 4648, section 4: a byte string read in groups of three.
unfoldable pub standard : Text → Text
standard [] = []
standard (a ∷ []) = b64_table (a / 4) ∷ b64_table (a % 4 * 16) ∷ b'=' ∷ b'=' ∷ []
standard (a ∷ b ∷ []) =
    b64_table (a / 4) ∷ b64_table (a % 4 * 16 + b / 16) ∷ b64_table (b % 16 * 4) ∷ b'=' ∷ []
standard (a ∷ b ∷ c ∷ rest) =
    b64_table (a / 4)
    ∷ b64_table (a % 4 * 16 + b / 16)
    ∷ b64_table (b % 16 * 4 + c / 64)
    ∷ b64_table (c % 64)
    ∷ standard rest

abbrev pub IsByte : ℕ → Type 0
IsByte b = b < 256

-- The encoder when `w` is written and `m` places are left.
abbrev at : Text → ℕ → ℕ → ℕ → Encoder
at w m bits acc = record {
  retval = w ++ replicate m b'=';
  outpos = length w;
  bits_collected = bits;
  accumulator = acc;
}

put-at : (w : Text) (m bits acc c : ℕ) → put (at w (suc m) bits acc) c ≡ at (w ++ c ∷ []) m bits acc
unfolding put
put-at w m bits acc c =
    λ i. record { retval = written i; outpos = moved i; bits_collected = bits; accumulator = acc }
  where
    written : set (w ++ replicate (suc m) b'=') (length w) c ≡ (w ++ c ∷ []) ++ replicate m b'='
    written =
        set-append w b'=' (replicate m b'=') c ∙ sym (append_assoc w (c ∷ []) (replicate m b'='))

    moved : length w + 1 ≡ length (w ++ c ∷ [])
    moved = omega (arith, length-append w (c ∷ []))

shift_in_sum : (acc i : ℕ) → IsByte i → shift_in acc i ≡ acc * 256 % u32_mod + i
unfolding shift_in
shift_in_sum acc i h =
    rw bit_and_byte
      (omega (arith, bit_or_byte (acc * 2 ^ 8 % u32_mod) (i % 256) (omega arith) (omega arith)))

-- A round of the inner loop, and its end.
drain_more :
    (fuel : ℕ) (w : Text) (m bits acc : ℕ)
    → leb 6 bits ≡ true
    → drain (suc fuel) (at w (suc m) bits acc)
      ≡ drain fuel (at (w ++ b64_table (sextet acc (bits - 6)) ∷ []) m (bits - 6) acc)
unfolding drain
drain_more fuel w m bits acc h =
    rw (h, drain) (ap (drain fuel) (put-at w m (bits - 6) acc (b64_table (sextet acc (bits - 6)))))

drain_done :
    (fuel : ℕ) (w : Text) (m bits acc : ℕ)
    → leb 6 bits ≡ false
    → drain (suc fuel) (at w m bits acc) ≡ at w m bits acc
unfolding drain
drain_done fuel w m bits acc h = rw (h, drain)

-- One byte more on 0, 2 and 4 bits: the letters that it completes.
module _ (w : Text) (m acc i : ℕ) where
  byte_on_0 :
      encode_byte (at w (suc m) 0 acc) i
      ≡ at (w ++ b64_table (sextet (shift_in acc i) 2) ∷ []) m 2 (shift_in acc i)
  unfolding encode_byte
  byte_on_0 = drain_more 7 w m 8 (shift_in acc i) refl ∙ drain_done 6 _ m 2 (shift_in acc i) refl

  byte_on_2 :
      encode_byte (at w (suc m) 2 acc) i
      ≡ at (w ++ b64_table (sextet (shift_in acc i) 4) ∷ []) m 4 (shift_in acc i)
  unfolding encode_byte
  byte_on_2 = drain_more 9 w m 10 (shift_in acc i) refl ∙ drain_done 8 _ m 4 (shift_in acc i) refl

  byte_on_4 :
      encode_byte (at w (suc (suc m)) 4 acc) i
      ≡ at
          ((w ++ b64_table (sextet (shift_in acc i) 6) ∷ [])
            ++ b64_table (sextet (shift_in acc i) 0) ∷ [])
          m
          0
          (shift_in acc i)
  unfolding encode_byte
  byte_on_4 =
      drain_more 11 w (suc m) 12 (shift_in acc i) refl
      ∙ drain_more 10 _ m 6 (shift_in acc i) refl
      ∙ drain_done 9 _ m 0 (shift_in acc i) refl

-- What the sextets are, in terms of the bytes: older bits of the accumulator do not matter.
module _ (acc a : ℕ) (ha : IsByte a) where
  sextet_1 : sextet (shift_in acc a) 2 ≡ a / 4
  unfolding sextet
  sextet_1 = rw (bit_and_sextet, shift_in_sum acc a ha) (omega arith)

  sextet_2 : (b : ℕ) → IsByte b → sextet (shift_in (shift_in acc a) b) 4 ≡ a % 4 * 16 + b / 16
  unfolding sextet
  sextet_2 b hb = rw (bit_and_sextet, shift_in_sum _ b hb, shift_in_sum acc a ha) (omega arith)

sextet_3 :
    (acc b c : ℕ)
    → IsByte b
    → IsByte c
    → sextet (shift_in (shift_in acc b) c) 6 ≡ b % 16 * 4 + c / 64
unfolding sextet
sextet_3 acc b c hb hc =
    rw (bit_and_sextet, shift_in_sum _ c hc, shift_in_sum acc b hb) (omega arith)

sextet_4 : (acc c : ℕ) → IsByte c → sextet (shift_in acc c) 0 ≡ c % 64
unfolding sextet
sextet_4 acc c hc = rw (bit_and_sextet, shift_in_sum acc c hc) (omega arith)
