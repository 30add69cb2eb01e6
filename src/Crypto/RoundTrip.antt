-- ===== src/Crypto/RoundTrip.antt =====
-- `base64_decode` after `base64_encode`, and what the decoder rejects.
use Prim.Native.Nat.{bit_and}
use binance_monitor.Base.{
  ◌>>=◌, length, All, Text, ℕ, ◌+◌, ◌-◌, ◌*◌, ◌/◌, ◌%◌, ◌^◌, ◌≤◌, ◌<◌, ◌≡◌, refl, ap, ◌∙◌, ◌≢◌, ◌↔◌,
  ◌⊎◌, true, none, some, [], ◌∷◌, ◌++◌, append-nil, append_assoc, arith,
}
use binance_monitor.Crypto.Bits.{bit_or_sextet, bit_and_byte}
use binance_monitor.Crypto.Tables.{
  b64_table, reverse_table, reverse_table-b64_table, b64_table_plain,
}
use binance_monitor.Crypto.Encode.{standard, IsByte}
use binance_monitor.Crypto.Encode.Standard.{base64_encode-eq-standard}
use binance_monitor.Crypto.{
  Decoder, u32_mod, size_mod, is_space, shift_in_sextet, take_sextet, decode_loop, base64_decode,
  base64_encode,
}

abbrev decoder : Text → ℕ → ℕ → Decoder
decoder out bits acc = record { ret_val = out; received = bits; window = acc }

-- A letter of the alphabet adds its six bits.
decode_letter :
    (k : ℕ) (rest : Text) (d : Decoder)
    → k < 64
    → decode_loop (b64_table k ∷ rest) d ≡ decode_loop rest (take_sextet d k)
unfolding decode_loop is_space
decode_letter k rest d h = ground (arith, b64_table_plain k h, reverse_table-b64_table k h)

decode_padding : (rest : Text) (d : Decoder) → decode_loop (b'=' ∷ rest) d ≡ decode_loop rest d
unfolding decode_loop is_space
decode_padding rest d = refl

shift_in_sextet_sum : (acc v : ℕ) → v < 64 → shift_in_sextet acc v ≡ acc * 64 % u32_mod + v
unfolding shift_in_sextet
shift_in_sextet_sum acc v h = omega (arith, bit_or_sextet (acc * 2 ^ 6 % u32_mod) v h (omega arith))

-- The four positions in a group of letters.
module _ (out : Text) (acc v : ℕ) where
  sextet_on_0 : take_sextet (decoder out 0 acc) v ≡ decoder out 6 (shift_in_sextet acc v)
  unfolding take_sextet
  sextet_on_0 = refl

  sextet_on_6 :
      take_sextet (decoder out 6 acc) v
      ≡ decoder (out ++ bit_and (shift_in_sextet acc v / 16) 0xff ∷ []) 4 (shift_in_sextet acc v)
  unfolding take_sextet
  sextet_on_6 = refl

  sextet_on_4 :
      take_sextet (decoder out 4 acc) v
      ≡ decoder (out ++ bit_and (shift_in_sextet acc v / 4) 0xff ∷ []) 2 (shift_in_sextet acc v)
  unfolding take_sextet
  sextet_on_4 = refl

  sextet_on_2 :
      take_sextet (decoder out 2 acc) v
      ≡ decoder (out ++ bit_and (shift_in_sextet acc v / 1) 0xff ∷ []) 0 (shift_in_sextet acc v)
  unfolding take_sextet
  sextet_on_2 = refl

-- The bytes that two neighbouring letters hold, whatever the accumulator held before.
module _ (acc u v : ℕ) (hu : u < 64) (hv : v < 64) where
  two_letters : shift_in_sextet (shift_in_sextet acc u) v % 4096 ≡ u * 64 + v
  two_letters = rw (shift_in_sextet_sum _ v hv, shift_in_sextet_sum acc u hu) (omega arith)

  byte_1 :
      (a : ℕ)
      → a ≡ u * 4 + v / 16
      → bit_and (shift_in_sextet (shift_in_sextet acc u) v / 16) 0xff ≡ a
  byte_1 a e = rw bit_and_byte (omega (arith, two_letters))

  byte_2 :
      (b : ℕ)
      → b ≡ u % 16 * 16 + v / 4
      → bit_and (shift_in_sextet (shift_in_sextet acc u) v / 4) 0xff ≡ b
  byte_2 b e = rw bit_and_byte (omega (arith, two_letters))

  byte_3 :
      (c : ℕ)
      → c ≡ u % 4 * 64 + v
      → bit_and (shift_in_sextet (shift_in_sextet acc u) v / 1) 0xff ≡ c
  byte_3 c e = rw bit_and_byte (omega (arith, two_letters))

-- The letters of a whole group.
abbrev letter_2 : ℕ → ℕ → ℕ
letter_2 a b = a % 4 * 16 + b / 16

abbrev letter_3 : ℕ → ℕ → ℕ
letter_3 b c = b % 16 * 4 + c / 64

abbrev group_window : ℕ → ℕ → ℕ → ℕ → ℕ
group_window acc a b c =
    shift_in_sextet
      (shift_in_sextet (shift_in_sextet (shift_in_sextet acc (a / 4)) (letter_2 a b))
        (letter_3 b c))
      (c % 64)

decode_group :
    (out : Text) (acc a b c : ℕ) (rest : Text)
    → IsByte a
    → IsByte b
    → IsByte c
    → decode_loop (standard (a ∷ b ∷ c ∷ rest)) (decoder out 0 acc)
      ≡ decode_loop (standard rest) (decoder (out ++ a ∷ b ∷ c ∷ []) 0 (group_window acc a b c))
unfolding standard
decode_group out acc a b c rest ha hb hc =
    rw
      (
        decode_letter (a / 4) _ (decoder out 0 acc) (omega arith),
        sextet_on_0,
        decode_letter (a % 4 * 16 + b / 16) _ _ (omega arith),
        sextet_on_6,
        decode_letter (b % 16 * 4 + c / 64) _ _ (omega arith),
        sextet_on_4,
        decode_letter (c % 64) _ _ (omega arith),
        sextet_on_2,
        byte_1 acc (a / 4) (letter_2 a b) (omega arith) (omega arith) a (omega arith),
        byte_2 _ (letter_2 a b) (letter_3 b c) (omega arith) (omega arith) b (omega arith),
        byte_3 _ (letter_3 b c) (c % 64) (omega arith) (omega arith) c (omega arith),
      )
      (simp append_assoc)

decode_one :
    (out : Text) (acc a : ℕ)
    → IsByte a
    → decode_loop (standard (a ∷ [])) (decoder out 0 acc) ≡ some (out ++ a ∷ [])
unfolding standard
decode_one out acc a h =
    rw
      (
        decode_letter (a / 4) _ (decoder out 0 acc) (omega arith),
        sextet_on_0,
        decode_letter (a % 4 * 16) _ _ (omega arith),
        sextet_on_6,
        decode_padding,
        decode_padding,
        byte_1 acc (a / 4) (a % 4 * 16) (omega arith) (omega arith) a (omega arith),
      )
      (unfold decode_loop in refl)

decode_two :
    (out : Text) (acc a b : ℕ)
    → IsByte a
    → IsByte b
    → decode_loop (standard (a ∷ b ∷ [])) (decoder out 0 acc) ≡ some (out ++ a ∷ b ∷ [])
unfolding standard
decode_two out acc a b ha hb =
    rw
      (
        decode_letter (a / 4) _ (decoder out 0 acc) (omega arith),
        sextet_on_0,
        decode_letter (a % 4 * 16 + b / 16) _ _ (omega arith),
        sextet_on_6,
        decode_letter (b % 16 * 4) _ _ (omega arith),
        sextet_on_4,
        decode_padding,
        byte_1 acc (a / 4) (letter_2 a b) (omega arith) (omega arith) a (omega arith),
        byte_2 _ (letter_2 a b) (b % 16 * 4) (omega arith) (omega arith) b (omega arith),
      )
      (unfold decode_loop in simp append_assoc)

decode_standard :
    (bytes out : Text) (acc : ℕ)
    → All IsByte bytes
    → decode_loop (standard bytes) (decoder out 0 acc) ≡ some (out ++ bytes)
decode_standard [] out acc h = unfold standard decode_loop in simp append-nil
decode_standard (a ∷ []) out acc h = decode_one out acc a h.0
decode_standard (a ∷ b ∷ []) out acc h = decode_two out acc a b h.0 h.1.0
decode_standard (a ∷ b ∷ c ∷ rest) out acc (ha, (hb, (hc, hr))) =
    decode_group out acc a b c rest ha hb hc
    ∙ decode_standard rest (out ++ a ∷ b ∷ c ∷ []) (group_window acc a b c) hr
    ∙ ap some (append_assoc out (a ∷ b ∷ c ∷ []) rest)

-- Decoding what was encoded gives the bytes back, up to the length at which the encoder throws.
pub base64_decode-encode :
    (bytes : Text)
    → All IsByte bytes
    → length bytes ≤ (size_mod - 1) / 4 * 3
    → (base64_encode bytes >>= base64_decode) ≡ some bytes
unfolding base64_decode
base64_decode-encode bytes h fits =
    rw (base64_encode-eq-standard bytes h fits) (decode_standard bytes [] 0 h)

-- A byte that the decoder lets pass: white space, padding or a letter of the alphabet.
abbrev pub IsLegal : ℕ → Type 0
IsLegal c = (is_space c ≡ true) ⊎ ((c ≡ b'=') ⊎ ((c < 128) × (reverse_table c < 64)))

decode_loop-total : (asc : Text) (d : Decoder) → All IsLegal asc → decode_loop asc d ≢ none
unfolding decode_loop
decode_loop-total [] d h = λ e. cc
decode_loop-total (c ∷ rest) d h =
    ground
      (arith, decode_loop-total rest d, decode_loop-total rest (take_sextet d (reverse_table c)))

decode_loop-illegal : (asc : Text) (d : Decoder) → decode_loop asc d ≢ none → All IsLegal asc
unfolding decode_loop
decode_loop-illegal [] d h = tt
decode_loop-illegal (c ∷ rest) d h =
    ground (
      arith,
      decode_loop-illegal rest d,
      decode_loop-illegal rest (take_sextet d (reverse_table c)),
    )

-- The decoder throws exactly on input that holds a byte it does not let pass.
base64_decode-IsLegal : (asc : Text) → (base64_decode asc ≢ none) ↔ All IsLegal asc
unfolding base64_decode
base64_decode-IsLegal asc = (decode_loop-illegal asc _, decode_loop-total asc _)
