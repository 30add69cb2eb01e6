-- ===== src/Session/Socket/Leaks.antt =====
-- A response that cannot be written.
use binance_monitor.Base.{
  some_inj, ◌≡◌, refl, ◌∙◌, subst, ◌≢◌, true, false, not, Option, none, some,
}
use binance_monitor.Session.{Response}
use binance_monitor.Session.Socket.{
  write, Ending, done, end_of_stream, body_limit, failed, Completion, SessionSocket, is_closed,
  on_data_written, complete, Step, completes, expires, Reach, here, next,
}

module _ (Request : Type 0) (handle_requests : Request → Option Response) where
  idle-Step :
      {s t : SessionSocket Request handle_requests} {R : Type 0}
      → s.pending ≡ none
      → Step Request handle_requests s t
      → R
  idle-Step i (completes op c p e) = cc
  idle-Step i (expires op p e) = cc

  idle-Reach :
      {s t : SessionSocket Request handle_requests}
      → s.pending ≡ none
      → Reach Request handle_requests s t
      → s ≡ t
  idle-Reach i here = refl
  idle-Reach {s} i (next r st) =
      idle-Step
        (subst (λ (u : SessionSocket Request handle_requests). u.pending ≡ none) (idle-Reach i r) i)
        st

  -- If an open session fails to write a response, it stays open for good and does nothing more: the
  -- server, which erases closed sessions only, keeps it for ever.
  failed_write_leaks :
      (c : Completion Request handle_requests) (s : SessionSocket Request handle_requests)
      {t u : SessionSocket Request handle_requests}
      → c.ending ≢ done
      → s.is_open ≡ true
      → s.pending ≡ some write
      → complete Request handle_requests write c (record s { pending = none }) ≡ some t
      → Reach Request handle_requests t u
      → (u.pending ≡ none) × (is_closed Request handle_requests u ≡ false)
  unfolding complete is_closed
  failed_write_leaks c s {t} {u} f o p e r =
      let same : record s { pending = none } ≡ t = unchanged c.ending f ∙ some_inj e in
      let later : record s { pending = none } ≡ u =
        same
        ∙ idle-Reach
            (subst (λ (v : SessionSocket Request handle_requests). v.pending ≡ none) same refl) r in
      subst
        (λ (v : SessionSocket Request handle_requests).
          (v.pending ≡ none) × (not v.is_open ≡ false))
        later (refl, rw o refl)
    where
      unchanged :
          (ending : Ending)
          → ending ≢ done
          → record s { pending = none }
            ≡ on_data_written Request handle_requests ending (record s { pending = none })
      unchanged done n = absurd (n refl)
      unchanged end_of_stream n = refl
      unchanged (body_limit m) n = refl
      unchanged (failed m) n = refl
