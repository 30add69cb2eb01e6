-- ===== src/Hosts/Accounts.antt =====
-- What `operator==` of `host_info_t` compares, and lists of hosts without two of one account.
use binance_monitor.Base.{
  if◌then◌else◌, Bool-cases, text_eq_refl, text_eq_sound, ◌≡◌, refl, sym, ap, ◌∙◌, inl, inr, Bool,
  true, false, ◌&&◌, none, some, List, [], ◌∷◌, ◌++◌,
}
use binance_monitor.Records.{HostInfo, no_changes}
use binance_monitor.Hosts.{same_account, find_host, assign_found}

and_true : (a b : Bool) → a && b ≡ true → (a ≡ true) × (b ≡ true)
and_true true b h = (refl, h)
and_true false b h = cc

-- Two hosts of one account agree on the three texts.
unfoldable pub SameAccount : HostInfo → HostInfo → Type 0
SameAccount a b =
    (a.account_alias ≡ b.account_alias) × (a.api_key ≡ b.api_key) × (a.secret_key ≡ b.secret_key)

pub same_account_sound : (a b : HostInfo) → same_account a b ≡ true → SameAccount a b
unfolding same_account SameAccount
same_account_sound a b h =
    let (alias, keys) = and_true _ _ h in
    let (api, secret) = and_true _ _ keys in
    (text_eq_sound _ _ alias, text_eq_sound _ _ api, text_eq_sound _ _ secret)

pub same_account_complete : (a b : HostInfo) → SameAccount a b → same_account a b ≡ true
unfolding same_account SameAccount
same_account_complete a b (alias, api, secret) =
    rw
      (
        alias,
        api,
        secret,
        text_eq_refl b.account_alias,
        text_eq_refl b.api_key,
        text_eq_refl b.secret_key,
      )
      refl

pub same_account-right : (a b c : HostInfo) → SameAccount b c → same_account a b ≡ same_account a c
unfolding same_account SameAccount
same_account-right a b c (alias, api, secret) = rw (alias, api, secret) refl

pub same_account-left : (a b c : HostInfo) → SameAccount a b → same_account a c ≡ same_account b c
unfolding same_account SameAccount
same_account-left a b c (alias, api, secret) = rw (alias, api, secret) refl

pub SameAccount-sym : (a b : HostInfo) → SameAccount a b → SameAccount b a
unfolding SameAccount
SameAccount-sym a b (alias, api, secret) = (sym alias, sym api, sym secret)

same_truth : (a b : Bool) → (a ≡ true → b ≡ true) → (b ≡ true → a ≡ true) → a ≡ b
same_truth true b f g = sym (f refl)
same_truth false true f g = g refl
same_truth false false f g = refl

same_account_flip : (a b : HostInfo) → same_account a b ≡ true → same_account b a ≡ true
same_account_flip a b h = same_account_complete b a (SameAccount-sym a b (same_account_sound a b h))

pub same_account_comm : (a b : HostInfo) → same_account a b ≡ same_account b a
same_account_comm a b = same_truth _ _ (same_account_flip a b) (same_account_flip b a)

abbrev pub IsDistinct : List HostInfo → Type 0
IsDistinct [] = Unit
IsDistinct (h ∷ hosts) = (find_host hosts h ≡ none) × IsDistinct hosts

abbrev pub IsUnchanged : HostInfo → Type 0
IsUnchanged h = h.changes ≡ no_changes

-- Equal accounts are found alike.
pub find_host-same :
    (hosts : List HostInfo) (a b : HostInfo)
    → SameAccount a b
    → find_host hosts a ≡ find_host hosts b
unfolding find_host
find_host-same [] a b e = refl
find_host-same (h ∷ hosts) a b e = rw (same_account-right h a b e, find_host-same hosts a b e) refl

pub find_host-cons :
    (h : HostInfo) (hosts : List HostInfo) (host : HostInfo)
    → find_host (h ∷ hosts) host ≡ (if same_account h host then some h else find_host hosts host)
unfolding find_host
find_host-cons h hosts host = refl

pub find_host-append :
    (xs : List HostInfo) (y host : HostInfo)
    → find_host xs host ≡ none
    → find_host (xs ++ y ∷ []) host ≡ (if same_account y host then some y else none)
unfolding find_host
find_host-append [] y host h = refl
find_host-append (x ∷ xs) y host h = elim (Bool-cases (same_account x host)) [
  | inl e ↦ cc (sym (ap (λ b. if b then some x else find_host xs host) e) ∙ h)
  | inr e ↦
      rw e
        (find_host-append xs y host (sym (ap (λ b. if b then some x else find_host xs host) e) ∙ h))
]

pub find_host-none-cons :
    (x : HostInfo) (xs : List HostInfo) (y : HostInfo)
    → find_host (x ∷ xs) y ≡ none
    → (same_account x y ≡ false) × (find_host xs y ≡ none)
unfolding find_host
find_host-none-cons x xs y h = elim (Bool-cases (same_account x y)) [
  | inl e ↦ cc (sym (ap (λ b. if b then some x else find_host xs y) e) ∙ h)
  | inr e ↦ (e, sym (ap (λ b. if b then some x else find_host xs y) e) ∙ h)
]

pub IsDistinct-append :
    (xs : List HostInfo) (y : HostInfo)
    → find_host xs y ≡ none
    → IsDistinct xs
    → IsDistinct (xs ++ y ∷ [])
unfolding find_host
IsDistinct-append [] y h d = (refl, tt)
IsDistinct-append (x ∷ xs) y h d =
    let (different, fresh) = find_host-none-cons x xs y h in
    (
      find_host-append xs y x d.0
          ∙ ap (λ b. if b then some y else none) (same_account_comm y x ∙ different),
      IsDistinct-append xs y fresh d.1,
    )

-- What `assign_found` writes into the host that it found.
abbrev pub assigned : HostInfo → HostInfo → HostInfo
assigned new_host h = record h {
  tg_group_name = new_host.tg_group_name;
  account_alias = new_host.account_alias;
}

pub assigned-SameAccount :
    (new_host h : HostInfo) → same_account h new_host ≡ true → SameAccount (assigned new_host h) h
unfolding SameAccount
assigned-SameAccount new_host h e = (sym (same_account_sound h new_host e).0, refl, refl)

pub assign_found-cons :
    (new_host h : HostInfo) (hosts : List HostInfo)
    → assign_found new_host (h ∷ hosts) ≡ (
        if same_account h new_host
        then assigned new_host h ∷ hosts
        else h ∷ assign_found new_host hosts)
unfolding assign_found
assign_found-cons new_host h hosts = refl

-- The assignments do not change which accounts are there.
pub find_host-assign_found :
    (new_host : HostInfo) (xs : List HostInfo) (y : HostInfo)
    → find_host xs y ≡ none
    → find_host (assign_found new_host xs) y ≡ none
unfolding find_host assign_found
find_host-assign_found new_host [] y h = refl
find_host-assign_found new_host (x ∷ xs) y h =
    let (different, fresh) = find_host-none-cons x xs y h in
    elim (Bool-cases (same_account x new_host)) [
      | inl e ↦
          rw
            (
              assign_found-cons new_host x xs,
              e,
              find_host-cons (assigned new_host x) xs y,
              same_account-left (assigned new_host x) x y (assigned-SameAccount new_host x e),
              different,
            )
            fresh
      | inr e ↦
          rw
            (
              assign_found-cons new_host x xs,
              e,
              find_host-cons x (assign_found new_host xs) y,
              different,
            )
            (find_host-assign_found new_host xs y fresh)
    ]

pub IsDistinct-assign_found :
    (new_host : HostInfo) (xs : List HostInfo)
    → IsDistinct xs
    → IsDistinct (assign_found new_host xs)
unfolding assign_found
IsDistinct-assign_found new_host [] d = tt
IsDistinct-assign_found new_host (x ∷ xs) d = elim (Bool-cases (same_account x new_host)) [
  | inl e ↦
      rw e
        (find_host-same xs (assigned new_host x) x (assigned-SameAccount new_host x e) ∙ d.0, d.1)
  | inr e ↦ rw e (find_host-assign_found new_host xs x d.0, IsDistinct-assign_found new_host xs d.1)
]

pub find_host-split :
    (kept : List HostInfo) (h : HostInfo) (hosts : List HostInfo) (k : HostInfo)
    → find_host (kept ++ h ∷ hosts) k ≡ none
    → (same_account h k ≡ false) × (find_host (kept ++ hosts) k ≡ none)
find_host-split [] h hosts k e = find_host-none-cons h hosts k e
find_host-split (x ∷ kept) h hosts k e =
    let (different, later) = find_host-none-cons x (kept ++ h ∷ hosts) k e in
    let (apart, rest) = find_host-split kept h hosts k later in
    (apart, rw (find_host-cons x (kept ++ hosts) k, different) rest)
