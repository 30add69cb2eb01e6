-- ===== src/ListenKey/Examples.antt =====
-- Examples: an attempt that renews its key, and one that stops at the handshake.
use binance_monitor.Base.{text, ◌≡◌, refl, true, false, List, [], ◌∷◌}
use binance_monitor.ListenKey.{Completion, run, drive, renewal}

abbrev done : Completion
done = record { failed = false; sni = true; body = text "{}" }

abbrev failure : Completion
failure = record { failed = true; sni = true; body = [] }

abbrev completions : List Completion
completions = done ∷ done ∷ done ∷ done ∷ done ∷ []

renewed : (drive completions (run (text "k") (text "a"))).sent ≡ renewal (text "k") (text "a") ∷ []
unfolding drive run renewal
renewed = refl

answer_logged : (drive completions (run (text "k") (text "a"))).logged ≡ text "{}" ∷ []
unfolding drive run
answer_logged = refl

not_sent : (drive (done ∷ done ∷ failure ∷ []) (run (text "k") (text "a"))).sent ≡ []
unfolding drive run
not_sent = refl
