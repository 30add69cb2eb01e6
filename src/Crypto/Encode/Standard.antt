-- ===== src/Crypto/Encode/Standard.antt =====
-- `base64_encode` against the standard's reading in groups of three, and its two assertions.
use Prim.Native.Nat.{bit_and}
use binance_monitor.Base.{
  length, length-append, All, Text, is_empty, ℕ, suc, ◌+◌, ◌-◌, ◌*◌, ◌/◌, ◌%◌, ◌≤◌, ◌≡◌, refl, ap,
  ◌∙◌, not, some, [], ◌∷◌, ◌++◌, append_assoc, arith,
}
use binance_monitor.Crypto.Bits.{bit_and_sextet}
use binance_monitor.Crypto.Tables.{b64_table}
use binance_monitor.Crypto.Encode.{
  standard, IsByte, at, put-at, shift_in_sum, byte_on_0, byte_on_2, byte_on_4, sextet_1, sextet_2,
  sextet_3, sextet_4,
}
use binance_monitor.Crypto.{
  Encoder, u32_mod, size_mod, shift_in, encode_loop, encode_rest, encoder, encoded_size, encode_run,
  base64_encode, assertions_hold,
}

-- Three bytes from a group's start, whatever the accumulator holds.
encode_group :
    (w : Text) (m acc a b c : ℕ) (rest : Text)
    → IsByte a
    → IsByte b
    → IsByte c
    → encode_loop (a ∷ b ∷ c ∷ rest) (at w (suc (suc (suc (suc m)))) 0 acc)
      ≡ encode_loop rest (
          at
            (w
              ++ b64_table (a / 4)
                ∷ b64_table (a % 4 * 16 + b / 16)
                ∷ b64_table (b % 16 * 4 + c / 64)
                ∷ b64_table (c % 64)
                ∷ [])
            m
            0
            (shift_in (shift_in (shift_in acc a) b) c))
unfolding encode_loop
encode_group w m acc a b c rest ha hb hc =
    rw
      (
        byte_on_0 w (suc (suc (suc m))) acc a,
        byte_on_2 _ (suc (suc m)) (shift_in acc a) b,
        byte_on_4 _ m (shift_in (shift_in acc a) b) c,
        sextet_1 acc a ha,
        sextet_2 acc a ha b hb,
        sextet_3 (shift_in acc a) b c hb hc,
        sextet_4 (shift_in (shift_in acc a) b) c hc,
      )
      (simp append_assoc)

encoded_size_group :
    (n : ℕ) → encoded_size (suc (suc (suc n))) ≡ suc (suc (suc (suc (encoded_size n))))
unfolding encoded_size
encoded_size_group n = omega arith

-- The letter for the bits that are left over.
rest_on_2 :
    (w : Text) (m acc a : ℕ)
    → IsByte a
    → encode_rest (at w (suc m) 2 (shift_in acc a))
      ≡ at (w ++ b64_table (a % 4 * 16) ∷ []) m 2 (shift_in acc a * 16 % u32_mod)
unfolding encode_rest
rest_on_2 w m acc a h =
    put-at w m 2 _ _ ∙ ap (λ t. at (w ++ b64_table t ∷ []) m 2 (shift_in acc a * 16 % u32_mod)) low
  where
    low : bit_and (shift_in acc a * 16 % u32_mod) 0x3f ≡ a % 4 * 16
    low = rw (bit_and_sextet, shift_in_sum acc a h) (omega arith)

rest_on_4 :
    (w : Text) (m acc b : ℕ)
    → IsByte b
    → encode_rest (at w (suc m) 4 (shift_in acc b))
      ≡ at (w ++ b64_table (b % 16 * 4) ∷ []) m 4 (shift_in acc b * 4 % u32_mod)
unfolding encode_rest
rest_on_4 w m acc b h =
    put-at w m 4 _ _ ∙ ap (λ t. at (w ++ b64_table t ∷ []) m 4 (shift_in acc b * 4 % u32_mod)) low
  where
    low : bit_and (shift_in acc b * 4 % u32_mod) 0x3f ≡ b % 16 * 4
    low = rw (bit_and_sextet, shift_in_sum acc b h) (omega arith)

-- What the encoder has done once the input `data'` is read and the rest is written behind `w`.
record Written (w data' : Text) (e : Encoder) : Type 0 where
  retval : e.retval ≡ w ++ standard data'
  outpos : e.outpos ≡ length w + (length data' * 4 + 2) / 3

Written-one :
    (w : Text) (acc a : ℕ)
    → IsByte a
    → Written w (a ∷ []) (encode_rest (encode_loop (a ∷ []) (at w 4 0 acc)))
unfolding encode_loop standard
Written-one w acc a h =
    rw (byte_on_0 w 3 acc a, rest_on_2 _ 2 acc a h, sextet_1 acc a h)
      (record {
        retval = simp append_assoc;
        outpos = omega (
          arith,
          length-append (w ++ b64_table (a / 4) ∷ []) (b64_table (a % 4 * 16) ∷ []),
          length-append w (b64_table (a / 4) ∷ []),
        );
      })

Written-two :
    (w : Text) (acc a b : ℕ)
    → IsByte a
    → IsByte b
    → Written w (a ∷ b ∷ []) (encode_rest (encode_loop (a ∷ b ∷ []) (at w 4 0 acc)))
unfolding encode_loop standard
Written-two w acc a b ha hb =
    rw
      (
        byte_on_0 w 3 acc a,
        byte_on_2 _ 2 (shift_in acc a) b,
        rest_on_4 _ 1 (shift_in acc a) b hb,
        sextet_1 acc a ha,
        sextet_2 acc a ha b hb,
      )
      (record {
        retval = simp append_assoc;
        outpos = simp (append_assoc, length-append) (omega arith);
      })

Written-group :
    (w : Text) (a b c : ℕ) (rest : Text) (e : Encoder)
    → Written
        (w
          ++ b64_table (a / 4)
            ∷ b64_table (a % 4 * 16 + b / 16)
            ∷ b64_table (b % 16 * 4 + c / 64)
            ∷ b64_table (c % 64)
            ∷ [])
        rest
        e
    → Written w (a ∷ b ∷ c ∷ rest) e
unfolding standard
Written-group w a b c rest e h = record {
  retval = h.retval ∙ append_assoc w _ (standard rest);
  outpos = h.outpos ∙ simp length-append (omega arith);
}

-- Whatever the accumulator holds at a group's start, the rest of the input is written as the
-- standard says, and the write position ends behind the last letter.
encode_from :
    (bytes w : Text) (acc : ℕ)
    → All IsByte bytes
    → Written w bytes (encode_rest (encode_loop bytes (at w (encoded_size (length bytes)) 0 acc)))
unfolding standard
encode_from [] w acc h =
    unfold encoded_size encode_loop encode_rest in record { retval = refl; outpos = omega arith }
encode_from (a ∷ []) w acc h = unfold encoded_size in Written-one w acc a h.0
encode_from (a ∷ b ∷ []) w acc h = unfold encoded_size in Written-two w acc a b h.0 h.1.0
encode_from (a ∷ b ∷ c ∷ rest) w acc (ha, (hb, (hc, hr))) =
    rw
      (
        encoded_size_group (length rest),
        encode_group w (encoded_size (length rest)) acc a b c rest ha hb hc,
      )
      (Written-group w a b c rest _ (encode_from rest _ _ hr))

encode_run-Written : (bytes : Text) → All IsByte bytes → Written [] bytes (encode_run bytes)
unfolding encode_run encoder
encode_run-Written bytes h = encode_from bytes [] 0 h

pub base64_encode-eq-standard :
    (bytes : Text)
    → All IsByte bytes
    → length bytes ≤ (size_mod - 1) / 4 * 3
    → base64_encode bytes ≡ some (standard bytes)
unfolding base64_encode
base64_encode-eq-standard bytes h fits = ground (arith, (encode_run-Written bytes h).retval)

pub length-standard : (bytes : Text) → length (standard bytes) ≡ encoded_size (length bytes)
unfolding standard
length-standard [] = unfold encoded_size in refl
length-standard (a ∷ []) = unfold encoded_size in refl
length-standard (a ∷ b ∷ []) = unfold encoded_size in refl
length-standard (a ∷ b ∷ c ∷ rest) = rw encoded_size_group (omega (arith, length-standard rest))

-- The assertions before the return hold exactly for inputs that are not empty: for the empty input
-- `retval.size() - 2` wraps.
assertions_hold_iff :
    (bytes : Text)
    → All IsByte bytes
    → length bytes ≤ (size_mod - 1) / 4 * 3
    → assertions_hold (encode_run bytes) ≡ not (is_empty bytes)
unfolding assertions_hold
assertions_hold_iff [] h fits =
    unfold encode_run encode_loop encode_rest encoder encoded_size in refl
assertions_hold_iff (a ∷ rest) h fits =
    rw (w.retval, w.outpos, length-standard (a ∷ rest)) (unfold encoded_size in ground arith)
  where
    w : Written [] (a ∷ rest) (encode_run (a ∷ rest))
    w = encode_run-Written (a ∷ rest) h
