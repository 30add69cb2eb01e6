-- ===== src/Prices/Stream/Defined.antt =====
-- The optional members of `market_data_stream_t`, and the handlers that dereference them.
use binance_monitor.Base.{
  some_inj, Text, ◌-◌, ◌≡◌, refl, sym, ◌∙◌, subst, ◌≢◌, true, Option, none, some, arith,
}
use binance_monitor.Json.{JsonLibrary}
use binance_monitor.Prices.Stream.{
  MarketDataStream, Operation, Completion, rest_resolve, rest_connect, rest_handshake, rest_write,
  rest_read, ws_resolve, ws_connect, ws_ssl_handshake, ws_handshake, ws_read, run,
  rest_api_initiate_connection, close_frame, complete, Step, completes, closes, orphan_ends, Reach,
  here, next,
}

-- What an operation has been started on.
abbrev pub HasMembers : {Price : Type 0} → Option Operation → MarketDataStream Price → Type 0
HasMembers none s = Unit
HasMembers (some rest_resolve) s = Unit
HasMembers (some rest_read) s = (s.ssl_web_stream ≡ true) × (s.http_response ≡ true)
HasMembers (some ws_resolve) s = Unit
HasMembers (some ws_read) s = (s.ssl_web_stream ≡ true) × (s.buffer ≡ true)
HasMembers (some _) s = s.ssl_web_stream ≡ true

module _ (lib : JsonLibrary) {Price : Type 0} (stod : Text → Option Price) where
  -- The result is defined, and what is under way then has its members.
  abbrev IsDefined : Option (MarketDataStream Price) → Type 0
  IsDefined none = ⊥
  IsDefined (some t) = HasMembers t.pending t

  complete-IsDefined :
      (op : Operation) (c : Completion) (s : MarketDataStream Price)
      → s.pending ≡ none
      → HasMembers (some op) s
      → IsDefined (complete lib stod op c s)
  unfolding complete
  complete-IsDefined rest_resolve c s p h = ground arith
  complete-IsDefined _ c s p h = ground arith

  orphan-unchanged :
      (c : Completion) (s : MarketDataStream Price)
      → c.aborted ≡ true
      → complete lib stod ws_read c s ≡ some s
  unfolding complete
  orphan-unchanged c s e = ground arith

  Step-HasMembers :
      {s t : MarketDataStream Price}
      → HasMembers s.pending s
      → Step lib stod s t
      → HasMembers t.pending t
  unfolding close_frame
  Step-HasMembers {s} h (completes op c p e) = subst IsDefined e (
      complete-IsDefined op c (record s { pending = none }) refl
        (without op (subst (λ o. HasMembers o s) p h)))
    where
      without :
          (op : Operation)
          → HasMembers (some op) s
          → HasMembers (some op) (record s { pending = none })
      without rest_resolve m = m
      without rest_read m = m
      without ws_resolve m = m
      without ws_read m = m
      without rest_connect m = m
      without rest_handshake m = m
      without rest_write m = m
      without ws_connect m = m
      without ws_ssl_handshake m = m
      without ws_handshake m = m
  Step-HasMembers {s} h (closes p e) =
      subst (λ (t : MarketDataStream Price). HasMembers t.pending t) (sym e) tt
  Step-HasMembers {s} {t} h (orphan_ends c n a e) =
      subst (λ (t : MarketDataStream Price). HasMembers t.pending t)
        (some_inj (sym (orphan-unchanged c (record s { orphans = s.orphans - 1 }) a) ∙ e))
        (kept s.pending h)
    where
      kept :
          (o : Option Operation)
          → HasMembers o s
          → HasMembers o (record s { orphans = s.orphans - 1 })
      kept none m = m
      kept (some rest_resolve) m = m
      kept (some rest_read) m = m
      kept (some ws_resolve) m = m
      kept (some ws_read) m = m
      kept (some rest_connect) m = m
      kept (some rest_handshake) m = m
      kept (some rest_write) m = m
      kept (some ws_connect) m = m
      kept (some ws_ssl_handshake) m = m
      kept (some ws_handshake) m = m

  Reach-HasMembers : {s : MarketDataStream Price} → Reach lib stod run s → HasMembers s.pending s
  unfolding run rest_api_initiate_connection
  Reach-HasMembers here = tt
  Reach-HasMembers (next r st) = Step-HasMembers (Reach-HasMembers r) st

  -- In every reachable state, however the operation under way ends, its handler dereferences no empty
  -- optional.
  pub Reach-defined :
      {s : MarketDataStream Price} (op : Operation) (c : Completion)
      → Reach lib stod run s
      → s.pending ≡ some op
      → complete lib stod op c (record s { pending = none }) ≢ none
  Reach-defined {s} op c r p e =
      subst IsDefined e (defined op (subst (λ o. HasMembers o s) p (Reach-HasMembers r)))
    where
      defined :
          (op : Operation)
          → HasMembers (some op) s
          → IsDefined (complete lib stod op c (record s { pending = none }))
      defined rest_resolve m = complete-IsDefined rest_resolve c _ refl m
      defined rest_read m = complete-IsDefined rest_read c _ refl m
      defined ws_resolve m = complete-IsDefined ws_resolve c _ refl m
      defined ws_read m = complete-IsDefined ws_read c _ refl m
      defined rest_connect m = complete-IsDefined rest_connect c _ refl m
      defined rest_handshake m = complete-IsDefined rest_handshake c _ refl m
      defined rest_write m = complete-IsDefined rest_write c _ refl m
      defined ws_connect m = complete-IsDefined ws_connect c _ refl m
      defined ws_ssl_handshake m = complete-IsDefined ws_ssl_handshake c _ refl m
      defined ws_handshake m = complete-IsDefined ws_handshake c _ refl m
