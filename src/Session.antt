-- ===== src/Session.antt =====
-- binance_orders/src/session.cpp, lines 26 to 300: the routes of the HTTP interface and their handlers.
-- The verbs of Boost.Beast, `boost::string_view::find` and the database are parameters.
mod Examples
pub mod Uploads
pub mod Clients
pub mod Routes
pub mod Socket
use binance_monitor.Base.{
  ltb, ◌==◌, if◌then◌else◌, ◌>>=◌, length, Text, text, is_empty, Map, lookup, ℕ, ◌*◌, ◌/◌, Bool,
  true, false, not, ◌||◌, Option, none, some, List, [], ◌∷◌, ◌++◌,
}
use binance_monitor.Records.{HostInfo, HostChanged, no_changes}
use binance_monitor.Json.{JsonLibrary, string_value}
use binance_monitor.Url.{UrlQuery, decode_url, split_string_view, split_optional_queries, emplace}

-- `error_type_e`
pub data ErrorType : Type 0 where
  no_error resource_not_found requires_update bad_request server_error method_not_allowed
        unauthorized :
      ErrorType

-- What is sent: the object that `get_error` makes, with its status, or the list of `json_success`.
pub data Response : Type 0 where
  get_error : Text → ErrorType → ℕ → Response
  json_success : List Text → Response

-- What a handler does: its response, the rows it inserted, and what it appended to the container of
-- hosts.
pub record Outcome : Type 0 where
  pub response : Response
  pub inserted : List HostInfo
  pub appended : List HostInfo

pub respond : Response → Outcome
respond response = record { response = response; inserted = []; appended = [] }

pub not_found : Response
not_found = get_error (text "url not found") resource_not_found 404

pub not_allowed : Response
not_allowed = get_error (text "method not allowed") method_not_allowed 405

pub invalid : Response
invalid = get_error (text "JSON object is invalid") bad_request 400

pub index_page_handler : Outcome
unfolding respond
index_page_handler = respond (get_error (text "login") no_error 200)

module _ (lib : JsonLibrary) (add_new_host : HostInfo → Bool) where
  open lib use {Json, parse, get_object, get_array}

  unfoldable pub host_of_json : Json → Option HostInfo
  host_of_json json_item = do
    info ← get_object json_item
    api_key ← string_value lib info (text "api_key")
    secret_key ← string_value lib info (text "secret_key")
    account_alias ← string_value lib info (text "alias")
    tg_group_name ← string_value lib info (text "tg_group")
    some (record {
      account_alias = account_alias;
      api_key = api_key;
      secret_key = secret_key;
      tg_group_name = tg_group_name;
      changes = no_changes;
    })

  -- The loop, and what follows it. `hosts` and `error_list` are what the loop has collected.
  upload_loop : List Json → List HostInfo → List Text → Outcome
  unfolding invalid
  upload_loop [] hosts error_list = record {
    response = json_success error_list;
    inserted = hosts;
    appended = hosts;
  }
  upload_loop (json_item ∷ items) hosts error_list = elim (host_of_json json_item) [
    | none ↦ record { response = invalid; inserted = hosts; appended = [] }
    | some host ↦ elim (add_new_host host) [
      | true ↦ upload_loop items (hosts ++ host ∷ []) error_list
      | false ↦ upload_loop items hosts (error_list ++ host.api_key ∷ [])
    ]
  ]

  pub upload_handler : Text → Outcome
  unfolding upload_loop invalid respond
  upload_handler body = elim (parse body >>= get_array) [
    | none ↦ respond invalid
    | some info_list ↦ upload_loop info_list [] []
  ]

-- The lambdas of `add_endpoint_interfaces`.
pub data Callback : Type 0 where
  index_page upload : Callback

module _ {Verb : Type 0} (same_verb : Verb → Verb → Bool) where
  -- `rule_t`
  pub record Rule : Type 0 where
    pub verbs : List Verb
    pub route_callback : Callback

  -- The constructor of `rule_t`; `none` is its exception.
  rule : List Verb → Callback → Option Rule
  rule verbs callback =
      if ltb 3 (length verbs)
      then none
      else some (record { verbs = verbs; route_callback = callback })

  is_route : Text → Bool
  is_route [] = false
  is_route (c ∷ route) = c == b'/'

  -- `std::map::emplace` leaves a route that is there as it is.
  add_endpoint : Text → List Verb → Callback → Map Rule → Option (Map Rule)
  unfolding rule is_route
  add_endpoint route verbs callback endpoints =
      if is_route route
      then (rule verbs callback >>= λ r. some (elim (lookup route endpoints) [
        | none ↦ endpoints ++ (route, r) ∷ []
        | some _ ↦ endpoints
      ]))
      else none

  pub add_endpoint_interfaces : (get_verb post_verb : Verb) → Option (Map Rule)
  unfolding add_endpoint
  add_endpoint_interfaces get_verb post_verb =
      add_endpoint (text "/") (get_verb ∷ []) index_page [] >>= λ endpoints.
      add_endpoint (text "/upload") (post_verb ∷ []) upload endpoints

  has_verb : Verb → List Verb → Bool
  has_verb method [] = false
  has_verb method (v ∷ verbs) = same_verb v method || has_verb method verbs

module _ (lib : JsonLibrary) (add_new_host : HostInfo → Bool) (find : Text → Text → ℕ → Option ℕ)
    {Verb : Type 0} (same_verb : Verb → Verb → Bool) where
  call : Callback → Text → UrlQuery → Outcome
  unfolding index_page_handler
  call index_page body query = index_page_handler
  call upload body query = upload_handler lib add_new_host body

  -- From the parts of the target on; the parts are never empty.
  dispatch : Map (Rule same_verb) → Verb → Text → List Text → Option Outcome
  unfolding call has_verb respond not_found not_allowed
  dispatch endpoints method body [] = none
  dispatch endpoints method body (path ∷ more) = elim (lookup path endpoints) [
    | none ↦ some (respond not_found)
    | some rules ↦
        if has_verb same_verb method rules.verbs
        then (split_optional_queries find (elim more [ [] ↦ [] | query ∷ _ ↦ query ])
            >>= λ url_query. some (call rules.route_callback body url_query))
        else some (respond not_allowed)
  ]

  -- `none` is a read past the end of the target.
  pub handle_requests : Map (Rule same_verb) → (method : Verb) (target body : Text) → Option Outcome
  unfolding dispatch index_page_handler
  handle_requests endpoints method target body = decode_url target >>= λ request_target.
      if is_empty request_target
      then some index_page_handler
      else (split_string_view find request_target (text "?") >>= dispatch endpoints method body)
