-- ===== src/Reports/Atomic.antt =====
-- What a message of user_data_stream.cpp appends to the container, and the account it is tagged
-- with.
use mathlib.Core.Path.{fun_ext}
use binance_monitor.Base.{
  Option-cases, ◌>>=◌, some_inj, Ensures, Ensures-of, Ensures-bind, Ensures-if, All, All-append,
  Text, text, text_eq, ℤ, Map, lookup, ◌≡◌, refl, sym, ap, ◌∙◌, subst, inl, inr, Option, none, some,
  List, [], ◌∷◌, ◌++◌, map, append-nil, append_assoc, arith,
}
use binance_monitor.Records.{
  WsAccountUpdate, HostInfo, UserStreamResult, WsOrderInfo, WsBalanceInfo, order, balance, account,
}
use binance_monitor.Json.{JsonLibrary, integer_value}
use binance_monitor.Reports.{
  account_item, account_items, account_updates, order_info, balance_info, process_event,
  interpret_message, interpret_generic_messages, process_timet,
}

-- All results, or `none` if one fails.
unfoldable pub traverse {ℓ κ} :
    {A : Type ℓ} {B : Type κ} → (A → Option B) → List A → Option (List B)
traverse f [] = some []
traverse f (a ∷ rest) = f a >>= λ b. traverse f rest >>= λ bs. some (b ∷ bs)

module _ (lib : JsonLibrary) where
  open lib use {Json, get_array}

  -- What a round overwrites does not depend on the record that it is given.
  account_item_fresh :
      (shared update : WsAccountUpdate) (item other : Json)
      → account_item lib shared item ≡ some update
      → account_item lib update other ≡ account_item lib shared other
  unfolding account_item
  account_item_fresh shared update item other e = ground arith

  account_items-traverse :
      (shared : WsAccountUpdate) (items : List Json) (updates : List WsAccountUpdate)
      → account_items lib shared items updates
        ≡ (traverse (account_item lib shared) items >>= λ more. some (updates ++ more))
  unfolding account_items traverse
  account_items-traverse shared [] updates = simp append-nil
  account_items-traverse shared (item ∷ items) updates =
      elim (Option-cases (account_item lib shared item)) [
        | inl e ↦ rw e refl
        | inr (update, e) ↦ rw e (
            account_items-traverse update items (updates ++ update ∷ [])
            ∙ rw (fun_ext (λ other. account_item_fresh shared update item other e))
                (regroup updates update (traverse (account_item lib shared) items)))
      ]
    where
      regroup :
          (us : List WsAccountUpdate) (u : WsAccountUpdate) (r : Option (List WsAccountUpdate))
          → (r >>= λ more. some ((us ++ u ∷ []) ++ more))
            ≡ (r >>= (λ bs. some (u ∷ bs)) >>= λ more. some (us ++ more))
      regroup us u none = refl
      regroup us u (some more) = ap some (append_assoc us (u ∷ []) more)

  account_items_start :
      (shared : WsAccountUpdate) (items : List Json)
      → account_items lib shared items [] ≡ traverse (account_item lib shared) items
  account_items_start shared items =
      account_items-traverse shared items [] ∙ Option-eta (traverse (account_item lib shared) items)
    where
      Option-eta : (r : Option (List WsAccountUpdate)) → (r >>= λ more. some more) ≡ r
      Option-eta none = refl
      Option-eta (some a) = refl

  -- The record before the loop over the balances.
  abbrev pub blank : HostInfo → ℤ → ℤ → WsAccountUpdate
  blank host event_time last_update = record {
    instrument_id = [];
    free_amount = [];
    locked_amount = [];
    event_time = process_timet event_time;
    last_account_update = process_timet last_update;
    for_aliased_account = host.account_alias;
    telegram_group = host.tg_group_name;
  }

  -- An account position gives one update for each balance, made from a blank record and from that
  -- balance alone, or none if any of the reads throws.
  pub account_updates-traverse :
      (host : HostInfo) (object : Map Json)
      → account_updates lib host object ≡ do
        event_time ← integer_value lib object (text "E")
        last_update ← integer_value lib object (text "u")
        balances ← lookup (text "B") object
        items ← get_array balances
        traverse (account_item lib (blank host event_time last_update)) items
  unfolding account_updates
  account_updates-traverse host object = simp account_items_start

  -- The items carry the alias and the group of the host.
  abbrev pub IsTagged : HostInfo → UserStreamResult → Type 0
  IsTagged host (order o) =
      (o.for_aliased_account ≡ host.account_alias) × (o.telegram_group ≡ host.tg_group_name)
  IsTagged host (balance b) =
      (b.for_aliased_account ≡ host.account_alias) × (b.telegram_group ≡ host.tg_group_name)
  IsTagged host (account a) =
      (a.for_aliased_account ≡ host.account_alias) × (a.telegram_group ≡ host.tg_group_name)

  order_info-IsTagged :
      (host : HostInfo) (object : Map Json) {o : WsOrderInfo}
      → order_info lib host object ≡ some o
      → IsTagged host (order o)
  unfolding order_info
  order_info-IsTagged host object e = ground arith

  balance_info-IsTagged :
      (host : HostInfo) (object : Map Json) {b : WsBalanceInfo}
      → balance_info lib host object ≡ some b
      → IsTagged host (balance b)
  unfolding balance_info
  balance_info-IsTagged host object e = ground arith

  account_item-IsTagged :
      (host : HostInfo) (shared u : WsAccountUpdate) (item : Json)
      → IsTagged host (account shared)
      → account_item lib shared item ≡ some u
      → IsTagged host (account u)
  unfolding account_item
  account_item-IsTagged host shared u item h e = ground arith

  account_items-IsTagged :
      (host : HostInfo) (shared : WsAccountUpdate) (items : List Json)
      (updates us : List WsAccountUpdate)
      → IsTagged host (account shared)
      → All (λ u. IsTagged host (account u)) updates
      → account_items lib shared items updates ≡ some us
      → All (λ u. IsTagged host (account u)) us
  unfolding account_items
  account_items-IsTagged host shared [] updates us h hs e =
      subst (All (λ u. IsTagged host (account u))) (some_inj e) hs
  account_items-IsTagged host shared (item ∷ items) updates us h hs e =
      elim (Option-cases (account_item lib shared item)) [
        | inl n ↦ cc (sym e ∙ ap (λ o. o >>= λ u. account_items lib u items (updates ++ u ∷ [])) n)
        | inr (u, f) ↦
            let tag = account_item-IsTagged host shared u item h f in
            account_items-IsTagged host u items (updates ++ u ∷ []) us tag
              (All-append (λ u. IsTagged host (account u)) updates (u ∷ []) hs (tag, tt))
              (sym (ap (λ o. o >>= λ u. account_items lib u items (updates ++ u ∷ [])) f) ∙ e)
      ]

  All-map_account :
      (host : HostInfo) (us : List WsAccountUpdate)
      → All (λ u. IsTagged host (account u)) us
      → All (IsTagged host) (map account us)
  All-map_account host [] h = tt
  All-map_account host (u ∷ us) h = (h.0, All-map_account host us h.1)

  account_updates-IsTagged :
      (host : HostInfo) (object : Map Json)
      → Ensures (λ us. All (IsTagged host) (map account us)) (account_updates lib host object)
  unfolding account_updates
  account_updates-IsTagged host object =
      Ensures-bind P (integer_value lib object (text "E")) _ λ event_time.
        Ensures-bind P (integer_value lib object (text "u")) _ λ last_update.
          Ensures-bind P (lookup (text "B") object) _ λ balances.
            Ensures-bind P (get_array balances) _ λ items.
              Ensures-of P (account_items lib (blank host event_time last_update) items []) λ us e.
                All-map_account host us (
                  account_items-IsTagged host (blank host event_time last_update) items [] us
                    (refl, refl) tt e)
    where
      P : List WsAccountUpdate → Type 0
      P us = All (IsTagged host) (map account us)

  -- What one event appends.
  process_event-IsTagged :
      (host : HostInfo) (event : Text) (root : Map Json)
      → Ensures (All (IsTagged host)) (process_event lib host event root)
  unfolding process_event
  process_event-IsTagged host event root =
      Ensures-if (All (IsTagged host)) (text_eq event (text "executionReport")) _ _ orders (
        Ensures-if (All (IsTagged host)) (text_eq event (text "balanceUpdate")) _ _ balances (
          Ensures-if (All (IsTagged host)) (text_eq event (text "outboundAccountPosition")) _
            (some []) accounts tt))
    where
      one :
          (o : Option WsOrderInfo)
          → ((a : WsOrderInfo) → o ≡ some a → IsTagged host (order a))
          → Ensures (All (IsTagged host)) (o >>= λ a. some (order a ∷ []))
      one none h = tt
      one (some a) h = (h a refl, tt)

      orders : Ensures (All (IsTagged host)) (order_info lib host root >>= λ o. some (order o ∷ []))
      orders = one (order_info lib host root) (λ a e. order_info-IsTagged host root e)

      change :
          (o : Option WsBalanceInfo)
          → ((a : WsBalanceInfo) → o ≡ some a → IsTagged host (balance a))
          → Ensures (All (IsTagged host)) (o >>= λ a. some (balance a ∷ []))
      change none h = tt
      change (some a) h = (h a refl, tt)

      balances :
          Ensures (All (IsTagged host)) (balance_info lib host root >>= λ b. some (balance b ∷ []))
      balances = change (balance_info lib host root) (λ a e. balance_info-IsTagged host root e)

      many :
          (o : Option (List WsAccountUpdate))
          → Ensures (λ us. All (IsTagged host) (map account us)) o
          → Ensures (All (IsTagged host)) (o >>= λ us. some (map account us))
      many none h = tt
      many (some us) h = h

      accounts :
          Ensures
            (All (IsTagged host))
            (account_updates lib host root >>= λ us. some (map account us))
      accounts = many (account_updates lib host root) (account_updates-IsTagged host root)

  interpret_message-IsTagged :
      (host : HostInfo) (buffer : Text)
      → Ensures (All (IsTagged host)) (interpret_message lib host buffer)
  unfolding interpret_message
  interpret_message-IsTagged host buffer =
      Ensures-bind (All (IsTagged host)) (lib.parse buffer) _ λ json.
        Ensures-bind (All (IsTagged host)) (lib.get_object json) _
          λ root. event root (lookup (text "e") root)
    where
      event :
          (root : Map Json) (e : Option Json)
          → Ensures (All (IsTagged host)) (elim e [
            | none ↦ some []
            | some event ↦ lib.get_string event >>= λ t. process_event lib host t root
          ])
      event root none = tt
      event root (some e) =
          Ensures-bind (All (IsTagged host)) (lib.get_string e) _
            λ t. process_event-IsTagged host t root

  -- Whatever bytes arrive, what is appended is tagged with the alias and the group of the host.
  pub interpret_generic_messages-IsTagged :
      (host : HostInfo) (buffer : Text)
      → All (IsTagged host) (interpret_generic_messages lib host buffer)
  unfolding interpret_generic_messages
  interpret_generic_messages-IsTagged host buffer =
      caught (interpret_message lib host buffer) (interpret_message-IsTagged host buffer)
    where
      caught :
          (o : Option (List UserStreamResult))
          → Ensures (All (IsTagged host)) o
          → All (IsTagged host) (elim o [ none ↦ [] | some items ↦ items ])
      caught none h = tt
      caught (some items) h = h
