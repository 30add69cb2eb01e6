-- ===== src/ListenKey/Renewal.antt =====
-- The attempts of listen_key_keepalive.cpp, and the requests that they send.
use binance_monitor.Base.{Text, ℕ, ◌≡◌, ◌⊎◌, Option, none, some, List, [], ◌∷◌}
use binance_monitor.ListenKey.{
  ListenKeyKeepalive, Operation, Request, resolve, connect, handshake, write, read, renewal,
}

-- The requests that may have been sent before an operation.
MaySend : (key api : Text) → Option Operation → List Request → Type 0
MaySend key api (some resolve) sent = sent ≡ []
MaySend key api (some connect) sent = sent ≡ []
MaySend key api (some handshake) sent = sent ≡ []
MaySend key api (some write) sent = sent ≡ renewal key api ∷ []
MaySend key api (some read) sent = sent ≡ renewal key api ∷ []
MaySend key api none sent = (sent ≡ []) ⊎ (sent ≡ renewal key api ∷ [])

rank : Option Operation → ℕ
rank none = 0
rank (some resolve) = 5
rank (some connect) = 4
rank (some handshake) = 3
rank (some write) = 2
rank (some read) = 1

abbrev IsFor : (key api : Text) → ListenKeyKeepalive → Type 0
IsFor key api s = (s.listen_key ≡ key) × (s.api_key ≡ api) × MaySend key api s.pending s.sent
