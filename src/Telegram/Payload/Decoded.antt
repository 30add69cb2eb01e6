-- ===== src/Telegram/Payload/Decoded.antt =====
-- What a reader sees: the payload, decoded.
use native.Mathlib.Decide.{ℕ_discrete}
use binance_monitor.Base.{
  ◌==◌, if◌then◌else◌, ◌>>=◌, All-append, Text, text, is_empty, ◌+◌, ◌*◌, ◌%◌, ◌≡◌, refl, ap, ◌∙◌,
  ◌≢◌, Bool, true, false, not, ◌&&◌, some, [], ◌∷◌, ◌++◌, arith,
}
use binance_monitor.Records.{WsOrderInfo, order}
use binance_monitor.Url.{decode_url, hex_digit}
use binance_monitor.Url.Decode.{decode_url-append, decode_plain, decode_escape}
use binance_monitor.Url.Find.{Lacks}
use binance_monitor.Telegram.Payload.{line, order_payload, prepare_telegram_payload, ReplacesAll}

-- A line as it is read: label, value and newline.
plain : Text → Text → Text
plain label value = label ++ (value ++ 10 ∷ [])

pub order_message : WsOrderInfo → Text
unfolding plain
order_message o =
    plain (text "Exchange: ") (text "Binance")
    ++ (plain (text "OrderID: ") o.order_id
        ++ (plain (text "Token: ") o.instrument_id
            ++ (plain (text "Price: ") o.order_price
                ++ (plain (text "Qty: ") o.quantity_purchased
                    ++ (plain (text "LastFilled: ") o.last_filled_quantity
                        ++ (plain (text "Side: ") o.order_side
                            ++ (plain (text "Type: ") o.order_type
                                ++ ((if is_empty o.commission_asset
                                      then []
                                      else plain (text "Fee: ") (
                                          o.commission_amount
                                          ++ (text " ( " ++ (o.commission_asset ++ text " )"))))
                                    ++ (plain (text "ExeType: ") o.execution_type
                                        ++ (plain (text "State: ") o.order_status
                                            ++ (plain (text "CreatedTime: ") o.created_time
                                                ++ plain (text "TransactionTime: ")
                                                    o.transaction_time)))))))))))

all_plain : Text → Bool
all_plain [] = true
all_plain (c ∷ s) = not (c == b'%') && all_plain s

nothing_read : decode_url [] ≡ some []
unfolding decode_url
nothing_read = refl

space_code : (hex_digit b'2' * 16 + hex_digit b'0') % 256 ≡ b' '
unfolding hex_digit
space_code = refl

-- The fields that a message shows hold no percent sign.
pub record IsClean (o : WsOrderInfo) : Type 0 where
  pub order_id : Lacks b'%' o.order_id
  pub instrument_id : Lacks b'%' o.instrument_id
  pub order_price : Lacks b'%' o.order_price
  pub quantity_purchased : Lacks b'%' o.quantity_purchased
  pub last_filled_quantity : Lacks b'%' o.last_filled_quantity
  pub order_side : Lacks b'%' o.order_side
  pub order_type : Lacks b'%' o.order_type
  pub commission_amount : Lacks b'%' o.commission_amount
  pub commission_asset : Lacks b'%' o.commission_asset
  pub execution_type : Lacks b'%' o.execution_type
  pub order_status : Lacks b'%' o.order_status
  pub created_time : Lacks b'%' o.created_time
  pub transaction_time : Lacks b'%' o.transaction_time

module _ {replace_all : Text → Text → Text → Text} (law : ReplacesAll replace_all) where
  abbrev percent_20 : Text
  percent_20 = b'%' ∷ b'2' ∷ b'0' ∷ []

  abbrev escape : Text → Text
  escape s = replace_all s (b' ' ∷ []) percent_20

  escape-append : (p q : Text) → escape (p ++ q) ≡ escape p ++ escape q
  escape-append [] q = rw (law.nothing b' ' percent_20) refl
  escape-append (c ∷ p) q = elim (ℕ_discrete c b' ') [
    | yes space ↦
        rw (space, law.replaced b' ' (p ++ q) percent_20, law.replaced b' ' p percent_20)
          (ap (λ t. percent_20 ++ t) (escape-append p q))
    | no other ↦
        rw (law.kept c b' ' (p ++ q) percent_20 other, law.kept c b' ' p percent_20 other)
          (ap (λ t. c ∷ t) (escape-append p q))
  ]

  -- A text that reads as another after its spaces are escaped.
  abbrev Reads : Text → Text → Type 0
  Reads p a = decode_url (escape p) ≡ some a

  Reads-append : (p q a b : Text) → Reads p a → Reads q b → Reads (p ++ q) (a ++ b)
  Reads-append p q a b hp hq =
      ap decode_url (escape-append p q)
      ∙ decode_url-append (escape p) (escape q) a hp
      ∙ ap (λ o. o >>= λ t. some (a ++ t)) hq

  Reads-Lacks : (s : Text) → Lacks b'%' s → Reads s s
  Reads-Lacks [] h = rw (law.nothing b' ' percent_20) nothing_read
  Reads-Lacks (c ∷ s) h = elim (ℕ_discrete c b' ') [
    | yes space ↦
        rw
          (
            space,
            law.replaced b' ' s percent_20,
            decode_escape b'2' b'0' (escape s),
            Reads-Lacks s h.1,
          )
          (ap (λ v. some (v ∷ s)) space_code)
    | no other ↦
        rw (law.kept c b' ' s percent_20 other, decode_plain c (escape s) h.0, Reads-Lacks s h.1)
          refl
  ]

  Reads-newline : Reads (text "%0A") (10 ∷ [])
  unfolding text decode_url hex_digit
  Reads-newline =
      rw
        (
          law.kept b'%' b' ' (b'0' ∷ b'A' ∷ []) percent_20 (λ e. omega arith),
          law.kept b'0' b' ' (b'A' ∷ []) percent_20 (λ e. omega arith),
          law.kept b'A' b' ' [] percent_20 (λ e. omega arith),
          law.nothing b' ' percent_20,
        )
        refl

  Reads-line :
      (label value : Text)
      → Lacks b'%' label
      → Lacks b'%' value
      → Reads (line label value) (plain label value)
  unfolding line plain
  Reads-line label value hl hv =
      Reads-append label _ label _ (Reads-Lacks label hl)
        (Reads-append value _ value _ (Reads-Lacks value hv) Reads-newline)

  literal : (label : Text) → all_plain label ≡ true → Lacks b'%' label
  unfolding all_plain
  literal [] h = tt
  literal (c ∷ label) h = ground (arith, literal label)

  Reads-if : (b : Bool) (p a : Text) → Reads p a → Reads (if b then [] else p) (if b then [] else a)
  Reads-if true p a h = rw (law.nothing b' ' percent_20) nothing_read
  Reads-if false p a h = h

  next_line :
      (label value rest after : Text)
      → all_plain label ≡ true
      → Lacks b'%' value
      → Reads rest after
      → Reads (line label value ++ rest) (plain label value ++ after)
  next_line label value rest after hl hv hr =
      Reads-append (line label value) rest (plain label value) after
        (Reads-line label value (literal label hl) hv) hr

  fee-Lacks :
      (o : WsOrderInfo)
      → IsClean o
      → Lacks b'%' (o.commission_amount ++ (text " ( " ++ (o.commission_asset ++ text " )")))
  unfolding text
  fee-Lacks o h =
      All-append (λ c. c ≢ b'%') o.commission_amount _ h.commission_amount
        (All-append (λ c. c ≢ b'%') (text " ( ") _ (literal (text " ( ") (unfold all_plain in refl))
          (All-append (λ c. c ≢ b'%') o.commission_asset (text " )") h.commission_asset
            (literal (text " )") (unfold all_plain in refl))))

  -- The payload of an order, decoded as a URL, is the message in plain text: a line for each field, the
  -- fee only where the commission has an asset. No field that it shows holds a percent sign.
  pub decode_url-prepare_telegram_payload :
      (o : WsOrderInfo)
      → IsClean o
      → decode_url (prepare_telegram_payload replace_all (order o)) ≡ some (order_message o)
  unfolding prepare_telegram_payload order_payload order_message text all_plain line plain
  decode_url-prepare_telegram_payload o h =
      next_line (text "Exchange: ") (text "Binance") _ _ refl (literal (text "Binance") refl) (
        next_line (text "OrderID: ") o.order_id _ _ refl h.order_id (
          next_line (text "Token: ") o.instrument_id _ _ refl h.instrument_id (
            next_line (text "Price: ") o.order_price _ _ refl h.order_price (
              next_line (text "Qty: ") o.quantity_purchased _ _ refl h.quantity_purchased (
                next_line (text "LastFilled: ") o.last_filled_quantity _ _ refl
                  h.last_filled_quantity
                  (next_line (text "Side: ") o.order_side _ _ refl h.order_side (
                    next_line (text "Type: ") o.order_type _ _ refl h.order_type (
                      Reads-append _ _ _ _
                        (Reads-if (is_empty o.commission_asset) _ _ (
                          Reads-line (text "Fee: ") _ (literal (text "Fee: ") refl)
                            (fee-Lacks o h)))
                        (next_line (text "ExeType: ") o.execution_type _ _ refl h.execution_type (
                          next_line (text "State: ") o.order_status _ _ refl h.order_status (
                            next_line (text "CreatedTime: ") o.created_time _ _ refl h.created_time
                              (Reads-line (text "TransactionTime: ") o.transaction_time
                                (literal (text "TransactionTime: ") refl)
                                h.transaction_time))))))))))))
