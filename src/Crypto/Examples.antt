-- ===== src/Crypto/Examples.antt =====
-- Examples: the bytes of "Man", and one more.
use binance_monitor.Base.{◌>>=◌, All, Text, ◌≡◌, some, [], ◌∷◌, arith}
use binance_monitor.Crypto.{base64_encode, base64_decode}
use binance_monitor.Crypto.Encode.{IsByte}
use binance_monitor.Crypto.RoundTrip.{base64_decode-encode}

abbrev bytes : Text
bytes = 77 ∷ 97 ∷ 110 ∷ 255 ∷ []

are_bytes : All IsByte bytes
are_bytes = (omega arith, (omega arith, (omega arith, (omega arith, tt))))

base64_decode-encode_example : (base64_encode bytes >>= base64_decode) ≡ some bytes
base64_decode-encode_example = base64_decode-encode bytes are_bytes (omega arith)
