-- ===== src/ChatUpdate/Examples.antt =====
-- Examples: a request that is answered, and one that fails to connect.
use binance_monitor.Base.{length, text, ◌≡◌, true, false, none, [], ◌∷◌, arith}
use binance_monitor.ChatUpdate.{Completion, run, drive}
use binance_monitor.ChatUpdate.Settles.{drive_once}

abbrev done : Completion
done = record { failed = false; sni = true; message = []; body = text "{}" }

abbrev failure : Completion
failure = record { failed = true; sni = true; message = text "refused"; body = [] }

drive_once_example :
    ((drive (done ∷ failure ∷ done ∷ done ∷ done ∷ []) run).pending ≡ none)
    × (length (drive (done ∷ failure ∷ done ∷ done ∷ done ∷ []) run).called ≡ 1)
drive_once_example = drive_once (done ∷ failure ∷ done ∷ done ∷ done ∷ []) (omega arith)
