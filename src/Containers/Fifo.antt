-- ===== src/Containers/Fifo.antt =====
-- The queue of common/containers.hpp under interleaved producers and consumers.
use binance_monitor.Base.{◌≡◌, sym, ap, ◌∙◌, some, List, [], ◌∷◌, ◌++◌, append-nil, append_assoc}
use binance_monitor.Containers.{get, append, append_list}

-- A completed call of some thread.
pub data Call {ℓ} (T : Type ℓ) : Type ℓ where
  appended : T → Call T
  appended_list : List T → Call T
  got : T → Call T

-- A call of `get` completes only with the item at the front.
pub data Runs {ℓ} {T : Type ℓ} (start : List T) : List (Call T) → List T → Type ℓ where
  idle : Runs start [] start
  append_call :
      {calls : List (Call T)} {q : List T} (item : T)
      → Runs start calls q
      → Runs start (appended item ∷ calls) (append item q)
  append_list_call :
      {calls : List (Call T)} {q : List T} (items : List T)
      → Runs start calls q
      → Runs start (appended_list items ∷ calls) (append_list items q)
  get_call :
      {calls : List (Call T)} {q rest : List T} (item : T)
      → Runs start calls q
      → get q ≡ some (item, rest)
      → Runs start (got item ∷ calls) rest

module _ {ℓ} {T : Type ℓ} where
  -- What the calls put in and took out, in the order of the calls. The last call stands first.
  abbrev pub put_in : List (Call T) → List T
  put_in [] = []
  put_in (appended item ∷ calls) = put_in calls ++ item ∷ []
  put_in (appended_list items ∷ calls) = put_in calls ++ items
  put_in (got item ∷ calls) = put_in calls

  abbrev pub taken_out : List (Call T) → List T
  taken_out [] = []
  taken_out (appended item ∷ calls) = taken_out calls
  taken_out (appended_list items ∷ calls) = taken_out calls
  taken_out (got item ∷ calls) = taken_out calls ++ item ∷ []

  get_front : (q rest : List T) (item : T) → get q ≡ some (item, rest) → q ≡ item ∷ rest
  unfolding get
  get_front [] rest item e = cc
  get_front (x ∷ q) rest item e = cc

  -- What was taken out, followed by what is still there, is what was there at the start followed by
  -- what was put in.
  pub fifo :
      {start q : List T} {calls : List (Call T)}
      → Runs start calls q
      → taken_out calls ++ q ≡ start ++ put_in calls
  unfolding append append_list
  fifo idle = sym (append-nil _)
  fifo {start = start} (append_call {calls = calls} {q = q} item r) =
      sym (append_assoc (taken_out calls) q (item ∷ []))
      ∙ ap (λ l. l ++ item ∷ []) (fifo r)
      ∙ append_assoc start (put_in calls) (item ∷ [])
  fifo {start = start} (append_list_call {calls = calls} {q = q} items r) =
      sym (append_assoc (taken_out calls) q items)
      ∙ ap (λ l. l ++ items) (fifo r)
      ∙ append_assoc start (put_in calls) items
  fifo (get_call {calls = calls} {q = q} {rest = rest} item r e) =
      append_assoc (taken_out calls) (item ∷ []) rest
      ∙ ap (λ l. taken_out calls ++ l) (sym (get_front q rest item e))
      ∙ fifo r
