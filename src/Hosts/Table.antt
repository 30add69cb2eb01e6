-- ===== src/Hosts/Table.antt =====
-- The previous hosts of the monitor of background_threads.cpp, against the table of hosts.
use binance_monitor.Base.{
  if◌then◌else◌, Bool-cases, Option-cases, Text, text_eq_sound, ◌≡◌, refl, sym, ap, ◌∙◌, inl, inr,
  Bool, true, false, not, ◌&&◌, Option, none, some, List, [], ◌∷◌, ◌++◌,
}
use binance_monitor.Records.{HostInfo}
use binance_monitor.Hosts.{
  Monitor, same_account, find_host, assign_found, changes_made_to_host, remaining_hosts,
  notice_host, notice_hosts, monitor_round,
}
use binance_monitor.Hosts.Accounts.{
  SameAccount, same_account_sound, same_account-left, same_account-right, IsDistinct,
  find_host-same, find_host-cons, assigned, assigned-SameAccount,
}

group : Option HostInfo → Option Text
group none = none
group (some h) = some h.tg_group_name

-- The Telegram group of an account in a list of hosts, if the account is there.
pub group_of : List HostInfo → HostInfo → Option Text
unfolding group
group_of hosts host = group (find_host hosts host)

or_else : Option Text → Option Text → Option Text
or_else none other = other
or_else (some a) other = some a

group_of-cons :
    (h : HostInfo) (hosts : List HostInfo) (host : HostInfo)
    → group_of (h ∷ hosts) host
      ≡ (if same_account h host then some h.tg_group_name else group_of hosts host)
unfolding group_of find_host
group_of-cons h hosts host = elim (Bool-cases (same_account h host)) [
  | inl e ↦ rw e refl
  | inr e ↦ rw e refl
]

group_of-append :
    (xs : List HostInfo) (y host : HostInfo)
    → group_of (xs ++ y ∷ []) host
      ≡ or_else (group_of xs host) (if same_account y host then some y.tg_group_name else none)
unfolding or_else group_of find_host group
group_of-append [] y host = group_of-cons y [] host
group_of-append (x ∷ xs) y host = elim (Bool-cases (same_account x host)) [
  | inl e ↦ rw (group_of-cons x (xs ++ y ∷ []) host, group_of-cons x xs host, e) refl
  | inr e ↦
      rw (group_of-cons x (xs ++ y ∷ []) host, group_of-cons x xs host, e)
        (group_of-append xs y host)
]

group_of-same :
    (hosts : List HostInfo) (a b : HostInfo) → SameAccount a b → group_of hosts a ≡ group_of hosts b
unfolding group_of
group_of-same hosts a b e = ap group (find_host-same hosts a b e)

group_of-found :
    (hosts : List HostInfo) (host : HostInfo) (found : Option HostInfo)
    → find_host hosts host ≡ found
    → group_of hosts host ≡ group found
unfolding group_of
group_of-found hosts host found e = ap group e

find_host-nil : (host : HostInfo) → find_host [] host ≡ none
unfolding find_host
find_host-nil host = refl

group_of-nil : (host : HostInfo) → group_of [] host ≡ none
unfolding group_of find_host group
group_of-nil host = refl

not_both :
    (x n host : HostInfo)
    → same_account x n ≡ false
    → same_account x host ≡ true
    → same_account n host ≡ false
not_both x n host apart same = elim (Bool-cases (same_account n host)) [
  | inl e ↦ cc (sym apart ∙ same_account-right x n host (same_account_sound n host e) ∙ same)
  | inr e ↦ e
]

-- The assignments change the group of that one account.
group_of-assign_found :
    (n : HostInfo) (xs : List HostInfo) (host old : HostInfo)
    → find_host xs n ≡ some old
    → group_of (assign_found n xs) host
      ≡ (if same_account n host then some n.tg_group_name else group_of xs host)
unfolding assign_found
group_of-assign_found n [] host old known = cc (sym (find_host-nil n) ∙ known)
group_of-assign_found n (x ∷ xs) host old known = elim (Bool-cases (same_account x n)) [
  | inl e ↦
      rw
        (
          e,
          group_of-cons (assigned n x) xs host,
          group_of-cons x xs host,
          same_account-left (assigned n x) x host (assigned-SameAccount n x e),
          same_account-left x n host (same_account_sound x n e),
        )
        (if_twice (same_account n host) _ _ _)
  | inr e ↦ elim (Bool-cases (same_account x host)) [
    | inl same ↦
        rw
          (
            e,
            group_of-cons x (assign_found n xs) host,
            group_of-cons x xs host,
            same,
            not_both x n host e same,
          )
          refl
    | inr other ↦
        rw (e, group_of-cons x (assign_found n xs) host, group_of-cons x xs host, other)
          (group_of-assign_found n xs host old (
            sym (ap (λ b. if b then some x else find_host xs n) e)
            ∙ sym (find_host-cons x xs n)
            ∙ known))
  ]
]
  where
    if_twice :
        (b : Bool) (x y z : Option Text)
        → (if b then x else y) ≡ (if b then x else if b then z else y)
    if_twice true x y z = refl
    if_twice false x y z = refl

or_else-none : (o : Option Text) → or_else o none ≡ o
unfolding or_else
or_else-none none = refl
or_else-none (some a) = refl

unchanged_group :
    (old n : HostInfo) → changes_made_to_host old n ≡ false → old.tg_group_name ≡ n.tg_group_name
unfolding changes_made_to_host
unchanged_group old n e = text_eq_sound _ _ (not_and _ _ e)
  where
    not_and : (a b : Bool) → not (a && b) ≡ false → a ≡ true
    not_and true b h = refl
    not_and false b h = cc

group_of-as :
    (hosts : List HostInfo) (n host : HostInfo)
    → same_account n host ≡ true
    → (found : Option HostInfo) → find_host hosts n ≡ found
    → group_of hosts host ≡ group found
group_of-as hosts n host same found e =
    sym (group_of-same hosts n host (same_account_sound n host same))
    ∙ group_of-found hosts n found e

group_of-notice_host :
    (n : HostInfo) (m : Monitor) (host : HostInfo)
    → group_of (notice_host n m).previous_hosts host
      ≡ (if same_account n host then some n.tg_group_name else group_of m.previous_hosts host)
unfolding notice_host group or_else
group_of-notice_host n m host = elim (Option-cases (find_host m.previous_hosts n)) [
  | inl new ↦
      rw (notice_host, new, group_of-append m.previous_hosts n host)
        (elim (Bool-cases (same_account n host)) [
          | inl same ↦ rw (same, group_of-as m.previous_hosts n host same none new) refl
          | inr other ↦ rw other (or_else-none (group_of m.previous_hosts host))
        ])
  | inr (old, known) ↦ elim (Bool-cases (changes_made_to_host old n)) [
    | inl changed ↦
        rw (notice_host, known, changed) (group_of-assign_found n m.previous_hosts host old known)
    | inr kept ↦
        rw (notice_host, known, kept)
          (elim (Bool-cases (same_account n host)) [
            | inl same ↦
                rw (same, group_of-as m.previous_hosts n host same (some old) known)
                  (ap some (unchanged_group old n kept))
            | inr other ↦ rw other refl
          ])
  ]
]

group_of-notice_hosts :
    (hosts : List HostInfo) (m : Monitor) (host : HostInfo)
    → IsDistinct hosts
    → group_of (notice_hosts hosts m).previous_hosts host
      ≡ or_else (group_of hosts host) (group_of m.previous_hosts host)
unfolding notice_hosts or_else group_of find_host group
group_of-notice_hosts [] m host d = refl
group_of-notice_hosts (n ∷ hosts) m host d =
    group_of-notice_hosts hosts (notice_host n m) host d.1
    ∙ rw (group_of-notice_host n m host, group_of-cons n hosts host)
        (elim (Bool-cases (same_account n host)) [
          | inl same ↦ rw (same, group_of-as hosts n host same none d.0) refl
          | inr other ↦ rw other refl
        ])

if_known : Option Text → Option Text → Option Text
if_known none o = none
if_known (some a) o = o

if_known-none : (o : Option Text) → if_known o none ≡ none
unfolding if_known
if_known-none none = refl
if_known-none (some a) = refl

if_known-or_else : (o p : Option Text) → if_known o (or_else o p) ≡ o
unfolding if_known or_else
if_known-or_else none p = refl
if_known-or_else (some a) p = refl

group_of-remaining_hosts :
    (new_hosts hosts : List HostInfo) (host : HostInfo)
    → group_of (remaining_hosts new_hosts hosts) host
      ≡ if_known (group_of new_hosts host) (group_of hosts host)
unfolding remaining_hosts if_known group
group_of-remaining_hosts new_hosts [] host =
    rw (group_of-nil host) (sym (if_known-none (group_of new_hosts host)))
group_of-remaining_hosts new_hosts (h ∷ hosts) host = elim (Bool-cases (same_account h host)) [
  | inl same ↦ elim (Option-cases (find_host new_hosts h)) [
    | inl gone ↦
        rw
          (
            remaining_hosts,
            gone,
            group_of-remaining_hosts new_hosts hosts host,
            group_of-as new_hosts h host same none gone,
          )
          refl
    | inr (found, there) ↦
        rw
          (
            remaining_hosts,
            there,
            group_of-cons h (remaining_hosts new_hosts hosts) host,
            group_of-cons h hosts host,
            same,
            group_of-as new_hosts h host same (some found) there,
          )
          refl
  ]
  | inr other ↦ elim (Option-cases (find_host new_hosts h)) [
    | inl gone ↦
        rw (remaining_hosts, gone, group_of-cons h hosts host, other)
          (group_of-remaining_hosts new_hosts hosts host)
    | inr (found, there) ↦
        rw
          (
            remaining_hosts,
            there,
            group_of-cons h (remaining_hosts new_hosts hosts) host,
            group_of-cons h hosts host,
            other,
          )
          (group_of-remaining_hosts new_hosts hosts host)
  ]
]

-- Where the rows are of different accounts, an account has after a round the group that the table
-- gives it, and none if the table does not have the account.
pub group_of-monitor_round :
    (new_hosts previous : List HostInfo) (host : HostInfo)
    → IsDistinct new_hosts
    → group_of (monitor_round new_hosts previous).previous_hosts host ≡ group_of new_hosts host
unfolding monitor_round
group_of-monitor_round new_hosts previous host d =
    group_of-remaining_hosts new_hosts _ host
    ∙ ap (if_known (group_of new_hosts host)) (group_of-notice_hosts new_hosts _ host d)
    ∙ if_known-or_else (group_of new_hosts host) (group_of previous host)
