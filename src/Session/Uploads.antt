-- ===== src/Session/Uploads.antt =====
-- `upload_handler`: what is inserted, what is handed to the launcher, and what is answered.
use binance_monitor.Base.{
  if◌then◌else◌, Bool-cases, Option-cases, ◌>>=◌, some_inj, All, Text, ◌≡◌, refl, sym, ap, ◌∙◌,
  subst, inl, inr, Bool, none, some, List, [], ◌∷◌, ◌++◌, append-nil, append_assoc, arith,
}
use binance_monitor.Records.{HostInfo}
use binance_monitor.Hosts.Accounts.{IsUnchanged}
use binance_monitor.Json.{JsonLibrary}
use binance_monitor.Reports.Atomic.{traverse}
use binance_monitor.Session.{
  Outcome, json_success, host_of_json, upload_loop, upload_handler, invalid,
}

module _ (add_new_host : HostInfo → Bool) where
  -- The hosts that the database takes, and the API keys of the others.
  pub accepted : List HostInfo → List HostInfo
  accepted [] = []
  accepted (h ∷ hosts) = let rest = accepted hosts in if add_new_host h then h ∷ rest else rest

  pub refused : List HostInfo → List Text
  refused [] = []
  refused (h ∷ hosts) =
      let rest = refused hosts in if add_new_host h then rest else h.api_key ∷ rest

abbrev outcome : List Text → List HostInfo → Outcome
outcome errors hosts = record { response = json_success errors; inserted = hosts; appended = hosts }

module _ (lib : JsonLibrary) (add_new_host : HostInfo → Bool) where
  open lib use {Json, parse, get_array}

  upload_loop-accepted :
      (items : List Json) (hosts done : List HostInfo) (errors : List Text)
      → traverse (host_of_json lib add_new_host) items ≡ some hosts
      → upload_loop lib add_new_host items done errors ≡ record {
        response = json_success (errors ++ refused add_new_host hosts);
        inserted = done ++ accepted add_new_host hosts;
        appended = done ++ accepted add_new_host hosts;
      }
  unfolding upload_loop traverse accepted refused
  upload_loop-accepted [] hosts done errors e =
      subst
        (λ hs.
          outcome errors done
          ≡ outcome (errors ++ refused add_new_host hs) (done ++ accepted add_new_host hs))
        (some_inj e)
        (sym (
          ap (λ l. outcome l (done ++ [])) (append-nil errors)
          ∙ ap (outcome errors) (append-nil done)))
  upload_loop-accepted (item ∷ items) hosts done errors e =
      elim (Option-cases (host_of_json lib add_new_host item)) [
        | inl bad ↦ cc (rw bad at e)
        | inr (h, good) ↦ elim (Option-cases (traverse (host_of_json lib add_new_host) items)) [
          | inl bad ↦ cc (rw (good, bad) at e)
          | inr (rest, fine) ↦
              subst
                (λ hs.
                  upload_loop lib add_new_host (item ∷ items) done errors
                  ≡ outcome (errors ++ refused add_new_host hs) (done ++ accepted add_new_host hs))
                (some_inj (rw (good, fine) at e))
                (elim (Bool-cases (add_new_host h)) [
                  | inl yes_ ↦
                      rw (upload_loop, good, accepted, refused, yes_)
                        (upload_loop-accepted items rest (done ++ h ∷ []) errors fine
                          ∙ ap (outcome (errors ++ refused add_new_host rest))
                              (append_assoc done (h ∷ []) (accepted add_new_host rest)))
                  | inr no_ ↦
                      rw (upload_loop, good, accepted, refused, no_)
                        (upload_loop-accepted items rest done (errors ++ h.api_key ∷ []) fine
                          ∙ ap (λ l. outcome l (done ++ accepted add_new_host rest))
                              (append_assoc errors (h.api_key ∷ []) (refused add_new_host rest)))
                ])
        ]
      ]

  upload_loop-malformed :
      (items : List Json) (done : List HostInfo) (errors : List Text)
      → traverse (host_of_json lib add_new_host) items ≡ none
      → ((upload_loop lib add_new_host items done errors).response ≡ invalid)
        × ((upload_loop lib add_new_host items done errors).appended ≡ [])
  unfolding upload_loop traverse
  upload_loop-malformed [] done errors e = cc
  upload_loop-malformed (item ∷ items) done errors e =
      elim (Option-cases (host_of_json lib add_new_host item)) [
        | inl bad ↦ rw (upload_loop, bad) (refl, refl)
        | inr (h, good) ↦ elim (Option-cases (traverse (host_of_json lib add_new_host) items)) [
          | inr (rest, fine) ↦ cc (rw (good, fine) at e)
          | inl bad ↦ elim (Bool-cases (add_new_host h)) [
            | inl yes_ ↦
                rw (upload_loop, good, yes_)
                  (upload_loop-malformed items (done ++ h ∷ []) errors bad)
            | inr no_ ↦
                rw (upload_loop, good, no_)
                  (upload_loop-malformed items done (errors ++ h.api_key ∷ []) bad)
          ]
        ]
      ]

  -- If every item of the upload is well-formed, the hosts that the database takes are handed to the
  -- launcher in their order, and the API keys of the others are the answer.
  pub upload_handler-accepted :
      (body : Text) (items : List Json) (hosts : List HostInfo)
      → (parse body >>= get_array) ≡ some items
      → traverse (host_of_json lib add_new_host) items ≡ some hosts
      → upload_handler lib add_new_host body ≡ record {
        response = json_success (refused add_new_host hosts);
        inserted = accepted add_new_host hosts;
        appended = accepted add_new_host hosts;
      }
  unfolding upload_handler
  upload_handler-accepted body items hosts e t =
      rw (upload_handler, e) (upload_loop-accepted items hosts [] [] t)

  -- If one item of the upload is malformed, the answer is an error and nothing is handed to the
  -- launcher.
  upload_handler-malformed :
      (body : Text) (items : List Json)
      → (parse body >>= get_array) ≡ some items
      → traverse (host_of_json lib add_new_host) items ≡ none
      → ((upload_handler lib add_new_host body).response ≡ invalid)
        × ((upload_handler lib add_new_host body).appended ≡ [])
  unfolding upload_handler
  upload_handler-malformed body items e t =
      rw (upload_handler, e) (upload_loop-malformed items [] [] t)

  host_of_json-new :
      (item : Json) (host : HostInfo)
      → host_of_json lib add_new_host item ≡ some host
      → IsUnchanged host
  unfolding host_of_json
  host_of_json-new item host e = ground arith

  pub hosts-new :
      (items : List Json) (hosts : List HostInfo)
      → traverse (host_of_json lib add_new_host) items ≡ some hosts
      → All IsUnchanged hosts
  unfolding traverse
  hosts-new [] hosts e = subst (All IsUnchanged) (some_inj e) tt
  hosts-new (item ∷ items) hosts e = elim (Option-cases (host_of_json lib add_new_host item)) [
    | inl bad ↦ cc (rw bad at e)
    | inr (h, good) ↦ elim (Option-cases (traverse (host_of_json lib add_new_host) items)) [
      | inl bad ↦ cc (rw (good, bad) at e)
      | inr (rest, fine) ↦
          subst (All IsUnchanged) (some_inj (rw (good, fine) at e))
            (host_of_json-new item h good, hosts-new items rest fine)
    ]
  ]

pub accepted-All :
    (P : HostInfo → Type 0) (add_new_host : HostInfo → Bool) (hosts : List HostInfo)
    → All P hosts
    → All P (accepted add_new_host hosts)
unfolding accepted
accepted-All P add_new_host [] all = tt
accepted-All P add_new_host (h ∷ hosts) (p, all) = elim (Bool-cases (add_new_host h)) [
  | inl yes_ ↦ rw (accepted, yes_) (p, accepted-All P add_new_host hosts all)
  | inr no_ ↦ rw (accepted, no_) (accepted-All P add_new_host hosts all)
]
