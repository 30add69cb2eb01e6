-- ===== src/Hosts/Launcher/Mirror.antt =====
-- The hosts of the running streams, as `websock_launcher` of background_threads.cpp changes them.
pub mod Round
use binance_monitor.Base.{
  if◌then◌else◌, Bool-cases, Option-cases, All, ◌*◌, ◌≡◌, refl, sym, ap, ◌∙◌, inl, inr, List, [],
  ◌∷◌, ◌++◌, map, append-nil, append_assoc,
}
use binance_monitor.Records.{HostInfo, HostChanged, no_changes, host_removed, tg_group_changed}
use binance_monitor.Stream.{UserDataStream, user_data_stream, run, stop}
use binance_monitor.Hosts.{
  Monitor, same_account, find_host, assign_found, changes_made_to_host, notice_host, notice_hosts,
  remaining_hosts, removals, monitor_round,
}
use binance_monitor.Hosts.Accounts.{
  SameAccount, same_account_sound, same_account-right, same_account_comm, IsDistinct, IsUnchanged,
  find_host-none-cons, find_host-append, IsDistinct-append, assigned, assign_found-cons,
  IsDistinct-assign_found,
}
use binance_monitor.Hosts.Launcher.{
  Launcher, stop_found, regroup_found, process_host_changes, websock_launcher,
}

-- The change that one item makes to the list of hosts.
erase_host : HostInfo → List HostInfo → List HostInfo
erase_host host [] = []
erase_host host (h ∷ hosts) =
    let rest = erase_host host hosts in if same_account host h then hosts else h ∷ rest

regroup_host : HostInfo → List HostInfo → List HostInfo
regroup_host host [] = []
regroup_host host (h ∷ hosts) =
    let rest = regroup_host host hosts in
    if same_account host h
    then record h { tg_group_name = host.tg_group_name } ∷ hosts
    else h ∷ rest

apply_change : HostInfo → List HostInfo → List HostInfo
apply_change host hosts = elim host.changes [
  | no_changes ↦ hosts ++ host ∷ []
  | host_removed ↦ erase_host host hosts
  | tg_group_changed ↦ regroup_host host hosts
]

pub apply_changes : List HostInfo → List HostInfo → List HostInfo
apply_changes [] hosts = hosts
apply_changes (item ∷ items) hosts = apply_changes items (apply_change item hosts)

pub apply_changes-none : (hosts : List HostInfo) → apply_changes [] hosts ≡ hosts
unfolding apply_changes
apply_changes-none hosts = refl

pub apply_changes-new :
    (items hosts : List HostInfo)
    → All IsUnchanged items
    → apply_changes items hosts ≡ hosts ++ items
unfolding apply_changes apply_change
apply_changes-new [] hosts new = sym (append-nil hosts)
apply_changes-new (item ∷ items) hosts (new, all) =
    ap (apply_changes items) (simp (apply_change, new))
    ∙ apply_changes-new items (hosts ++ item ∷ []) all
    ∙ append_assoc hosts (item ∷ []) items

abbrev pub hosts_of : List UserDataStream → List HostInfo
hosts_of websocks = map (λ w. w.host_info) websocks

pub hosts_of-append :
    (ws : List UserDataStream) (w : UserDataStream)
    → hosts_of (ws ++ w ∷ []) ≡ hosts_of ws ++ w.host_info ∷ []
hosts_of-append [] w = refl
hosts_of-append (v ∷ ws) w = rw (hosts_of-append ws w)

hosts_of-stop_found :
    (host : HostInfo) (ws : List UserDataStream)
    → hosts_of (stop_found host ws).0 ≡ erase_host host (hosts_of ws)
unfolding stop_found erase_host
hosts_of-stop_found host [] = refl
hosts_of-stop_found host (w ∷ ws) = elim (Bool-cases (same_account host w.host_info)) [
  | inl e ↦ rw e refl
  | inr e ↦ rw (e, hosts_of-stop_found host ws) refl
]

hosts_of-regroup_found :
    (host : HostInfo) (ws : List UserDataStream)
    → hosts_of (regroup_found host ws) ≡ regroup_host host (hosts_of ws)
unfolding regroup_found regroup_host
hosts_of-regroup_found host [] = refl
hosts_of-regroup_found host (w ∷ ws) = elim (Bool-cases (same_account host w.host_info)) [
  | inl e ↦ rw e refl
  | inr e ↦ rw (e, hosts_of-regroup_found host ws) refl
]

hosts_of-process_host_changes :
    (host : HostInfo) (l : Launcher)
    → hosts_of (process_host_changes host l).websocks ≡ apply_change host (hosts_of l.websocks)
unfolding process_host_changes apply_change run
hosts_of-process_host_changes host l = go host.changes
  where
    go :
        (c : HostChanged)
        → hosts_of (process_host_changes (record host { changes = c }) l).websocks
          ≡ apply_change (record host { changes = c }) (hosts_of l.websocks)
    go no_changes = hosts_of-append l.websocks _
    go host_removed = hosts_of-stop_found _ l.websocks
    go tg_group_changed = hosts_of-regroup_found _ l.websocks

pub hosts_of-websock_launcher :
    (items : List HostInfo) (l : Launcher)
    → hosts_of (websock_launcher items l).websocks ≡ apply_changes items (hosts_of l.websocks)
unfolding websock_launcher apply_changes
hosts_of-websock_launcher [] l = refl
hosts_of-websock_launcher (item ∷ items) l =
    hosts_of-websock_launcher items (process_host_changes item l)
    ∙ ap (apply_changes items) (hosts_of-process_host_changes item l)

pub apply_changes-append :
    (xs ys hosts : List HostInfo)
    → apply_changes (xs ++ ys) hosts ≡ apply_changes ys (apply_changes xs hosts)
unfolding apply_changes
apply_changes-append [] ys hosts = refl
apply_changes-append (x ∷ xs) ys hosts = apply_changes-append xs ys (apply_change x hosts)

-- What holds while the monitor looks at the new hosts.
pub record Seen (previous : List HostInfo) (m : Monitor) : Type 0 where
  pub follows : apply_changes m.host_container previous ≡ m.previous_hosts
  pub distinct : IsDistinct m.previous_hosts

regroup_host-assign_found :
    (new_host : HostInfo) (hosts : List HostInfo)
    → regroup_host (record new_host { changes = tg_group_changed }) hosts
      ≡ assign_found new_host hosts
unfolding regroup_host assign_found SameAccount
regroup_host-assign_found new_host [] = refl
regroup_host-assign_found new_host (h ∷ hosts) = elim (Bool-cases (same_account h new_host)) [
  | inl e ↦
      rw
        (
          same_account_comm (record new_host { changes = tg_group_changed }) h,
          same_tagged h new_host,
          e,
        )
        (ap
          (λ alias.
            record h { account_alias = alias; tg_group_name = new_host.tg_group_name } ∷ hosts)
          (same_account_sound h new_host e).0)
  | inr e ↦
      rw
        (
          same_account_comm (record new_host { changes = tg_group_changed }) h,
          same_tagged h new_host,
          e,
        )
        (ap (λ l. h ∷ l) (regroup_host-assign_found new_host hosts))
]
  where
    same_tagged :
        (h new_host : HostInfo)
        → same_account h (record new_host { changes = tg_group_changed }) ≡ same_account h new_host
    same_tagged h new_host =
        same_account-right h (record new_host { changes = tg_group_changed }) new_host
          (refl, refl, refl)

apply_change-unchanged :
    (host : HostInfo) (hosts : List HostInfo)
    → IsUnchanged host
    → apply_change host hosts ≡ hosts ++ host ∷ []
unfolding apply_change
apply_change-unchanged host hosts unchanged = rw unchanged refl

-- One more item in the container makes one more change.
follows-append :
    (previous hosts items : List HostInfo) (item : HostInfo)
    → apply_changes items previous ≡ hosts
    → apply_changes (items ++ item ∷ []) previous ≡ apply_change item hosts
unfolding apply_changes
follows-append previous hosts items item e =
    apply_changes-append items (item ∷ []) previous ∙ ap (apply_change item) e

notice_host-Seen :
    (previous : List HostInfo) (new_host : HostInfo) (m : Monitor)
    → IsUnchanged new_host
    → Seen previous m
    → Seen previous (notice_host new_host m)
unfolding notice_host apply_change
notice_host-Seen previous new_host m unchanged seen =
    elim (Option-cases (find_host m.previous_hosts new_host)) [
      | inl new ↦
          rw (notice_host, new)
            (record {
              follows =
                  follows-append previous m.previous_hosts m.host_container new_host seen.follows
                  ∙ apply_change-unchanged new_host m.previous_hosts unchanged;
              distinct = IsDistinct-append m.previous_hosts new_host new seen.distinct;
            })
      | inr (old_host, known) ↦ elim (Bool-cases (changes_made_to_host old_host new_host)) [
        | inl changed ↦
            rw (notice_host, known, changed)
              (record {
                follows =
                    follows-append previous m.previous_hosts m.host_container _ seen.follows
                    ∙ regroup_host-assign_found new_host m.previous_hosts;
                distinct = IsDistinct-assign_found new_host m.previous_hosts seen.distinct;
              })
        | inr same ↦ rw (notice_host, known, same) seen
      ]
    ]

notice_hosts-Seen :
    (previous new_hosts : List HostInfo) (m : Monitor)
    → All IsUnchanged new_hosts
    → Seen previous m
    → Seen previous (notice_hosts new_hosts m)
unfolding notice_hosts
notice_hosts-Seen previous [] m unchanged seen = seen
notice_hosts-Seen previous (h ∷ hosts) m unchanged seen =
    notice_hosts-Seen previous hosts (notice_host h m) unchanged.1
      (notice_host-Seen previous h m unchanged.0 seen)
