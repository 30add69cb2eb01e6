-- ===== src/Session/Routes.antt =====
-- The requests of session.cpp, from their targets to their routes.
use binance_monitor.Base.{
  Bool-cases, Option-cases, ◌>>=◌, some_inj, Text, text, text_eq, Map, lookup, ℕ, ◌≡◌, refl, sym,
  ◌∙◌, subst, ◌≢◌, inl, inr, Bool, false, Option, none, some, List, [], ◌∷◌,
}
use binance_monitor.Records.{HostInfo}
use binance_monitor.Json.{JsonLibrary}
use binance_monitor.Url.{UrlQuery, decode_url}
use binance_monitor.Url.Find.{FindsFirst}
use binance_monitor.Url.Split.{
  fields, trimmed, drop_empty_last, fields_cons, split_string_view-fields,
}
use binance_monitor.Url.Queries.{split_optional_queries-total}
use binance_monitor.Session.{
  Outcome, Rule, call, add_endpoint_interfaces, add_endpoint, rule, is_route, has_verb, dispatch,
  handle_requests, respond, not_found, not_allowed,
}

abbrev pub first_part : List Text → Text
first_part [] = []
first_part (part ∷ more) = part

-- What stands before the first question mark.
abbrev pub path_of : Text → Text
path_of target = first_part (fields b'?' target)

-- The first part of a target that is not empty is its path.
parts_of :
    (c : ℕ) (s : Text)
    → (more : List Text) × (trimmed (fields b'?' (c ∷ s)) ≡ path_of (c ∷ s) ∷ more)
parts_of c s =
    let (f, fs, e) = fields_cons b'?' (c ∷ s) in
    subst (λ parts. (more : List Text) × (trimmed parts ≡ first_part parts ∷ more)) (sym e)
      (first f fs)
  where
    first : (f : Text) (fs : List Text) → (more : List Text) × (trimmed (f ∷ fs) ≡ f ∷ more)
    first f [] = ([], refl)
    first [] (g ∷ fs) = (drop_empty_last (g ∷ fs), refl)
    first (x ∷ f) (g ∷ fs) = (drop_empty_last (g ∷ fs), refl)

module _ (lib : JsonLibrary) (add_new_host : HostInfo → Bool) {find : Text → Text → ℕ → Option ℕ}
    (law : FindsFirst find) {Verb : Type 0} (same_verb : Verb → Verb → Bool) where
  dispatch-total :
      (endpoints : Map (Rule same_verb)) (method : Verb) (body path : Text) (more : List Text)
      → dispatch lib add_new_host find same_verb endpoints method body (path ∷ more) ≢ none
  unfolding dispatch
  dispatch-total endpoints method body path more = elim (Option-cases (lookup path endpoints)) [
    | inl unknown ↦ rw (dispatch, unknown) (λ e. cc)
    | inr (r, known) ↦ elim (Bool-cases (has_verb same_verb method r.verbs)) [
      | inr refused ↦ rw (dispatch, known, refused) (λ e. cc)
      | inl allowed ↦
          rw (dispatch, known, allowed)
            (answered (call lib add_new_host find same_verb r.route_callback body) _
              (split_optional_queries-total law _))
    ]
  ]
    where
      answered :
          (f : UrlQuery → Outcome) (o : Option UrlQuery) → o ≢ none → (o >>= λ q. some (f q)) ≢ none
      answered f none h = λ e. h refl
      answered f (some q) h = λ e. cc

  requests-parts :
      (endpoints : Map (Rule same_verb)) (method : Verb) (target body : Text) (c : ℕ) (s : Text)
      → decode_url target ≡ some (c ∷ s)
      → (more : List Text) × (handle_requests lib add_new_host find same_verb endpoints method
            target body
          ≡ dispatch lib add_new_host find same_verb endpoints method body (path_of (c ∷ s) ∷ more))
  unfolding handle_requests text
  requests-parts endpoints method target body c s e =
      let (more, parts) = parts_of c s in
      (more, rw (handle_requests, e, split_string_view-fields law b'?' (c ∷ s), parts) refl)

  -- A request is answered, whatever its target, method and body, if the target can be decoded.
  pub handle_requests-total :
      (endpoints : Map (Rule same_verb)) (method : Verb) (target body decoded : Text)
      → decode_url target ≡ some decoded
      → handle_requests lib add_new_host find same_verb endpoints method target body ≢ none
  unfolding handle_requests
  handle_requests-total endpoints method target body [] e = rw (handle_requests, e) (λ e'. cc)
  handle_requests-total endpoints method target body (c ∷ s) e =
      let (more, same) = requests-parts endpoints method target body c s e in
      rw same (dispatch-total endpoints method body (path_of (c ∷ s)) more)

  -- With the routes of the program, a request for a path that is neither / nor /upload is answered by
  -- "not found", whatever its method, and has no effect.
  handle_requests-not_found :
      (get_verb post_verb method : Verb) (endpoints : Map (Rule same_verb)) (target body : Text)
      (c : ℕ) (s : Text)
      → add_endpoint_interfaces same_verb get_verb post_verb ≡ some endpoints
      → decode_url target ≡ some (c ∷ s)
      → text_eq (text "/") (path_of (c ∷ s)) ≡ false
      → text_eq (text "/upload") (path_of (c ∷ s)) ≡ false
      → handle_requests lib add_new_host find same_verb endpoints method target body
        ≡ some (respond not_found)
  unfolding add_endpoint_interfaces add_endpoint rule is_route lookup text dispatch text_eq
  handle_requests-not_found get_verb post_verb method endpoints target body c s interfaces e
        not_index not_upload =
      let (more, same) = requests-parts endpoints method target body c s e in
      same
      ∙ subst
          (λ m.
            dispatch lib add_new_host find same_verb m method body (path_of (c ∷ s) ∷ more)
            ≡ some (respond not_found))
          (some_inj interfaces) (rw (dispatch, lookup, not_index, not_upload) refl)

  -- With the routes of the program, a request for /upload whose method is not that of its route is
  -- answered by "method not allowed", and has no effect.
  handle_requests-not_allowed :
      (get_verb post_verb method : Verb) (endpoints : Map (Rule same_verb)) (target body : Text)
      (c : ℕ) (s : Text)
      → add_endpoint_interfaces same_verb get_verb post_verb ≡ some endpoints
      → decode_url target ≡ some (c ∷ s)
      → path_of (c ∷ s) ≡ text "/upload"
      → same_verb post_verb method ≡ false
      → handle_requests lib add_new_host find same_verb endpoints method target body
        ≡ some (respond not_allowed)
  unfolding add_endpoint_interfaces add_endpoint rule is_route lookup text text_eq dispatch has_verb
  handle_requests-not_allowed get_verb post_verb method endpoints target body c s interfaces e path
        other =
      let (more, same) = requests-parts endpoints method target body c s e in
      same
      ∙ subst
          (λ p.
            dispatch lib add_new_host find same_verb endpoints method body (p ∷ more)
            ≡ some (respond not_allowed))
          (sym path)
          (subst
            (λ m.
              dispatch lib add_new_host find same_verb m method body (text "/upload" ∷ more)
              ≡ some (respond not_allowed))
            (some_inj interfaces) (rw (dispatch, has_verb, other) refl))
