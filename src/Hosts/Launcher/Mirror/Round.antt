-- ===== src/Hosts/Launcher/Mirror/Round.antt =====
-- One round of the monitor, followed by the launcher.
use binance_monitor.Base.{
  Option-cases, take, All, ℕ, ◌≡◌, refl, sym, ap, ◌∙◌, subst, inl, inr, Option, none, some, List,
  [], ◌∷◌, ◌++◌, map, append_assoc,
}
use binance_monitor.Records.{HostInfo, host_removed}
use binance_monitor.Hosts.{
  find_host, remaining_hosts, removals, notice_hosts, monitor_round, HostRow, host_of_row,
  get_available_hosts,
}
use binance_monitor.Hosts.Accounts.{
  SameAccount, same_account_complete, same_account-left, IsDistinct, IsUnchanged, find_host-split,
}
use binance_monitor.Hosts.Launcher.{Launcher, websock_launcher}
use binance_monitor.Hosts.Launcher.Mirror.{
  erase_host, apply_change, apply_changes, apply_changes-append, hosts_of,
  hosts_of-websock_launcher, Seen, notice_hosts-Seen,
}

erase_host-kept :
    (kept : List HostInfo) (h : HostInfo) (hosts : List HostInfo)
    → IsDistinct (kept ++ h ∷ hosts)
    → erase_host (record h { changes = host_removed }) (kept ++ h ∷ hosts) ≡ kept ++ hosts
unfolding erase_host SameAccount
erase_host-kept [] h hosts d =
    rw (same_account_complete (record h { changes = host_removed }) h (refl, refl, refl)) refl
erase_host-kept (k ∷ kept) h hosts d =
    let (different, _) = find_host-split kept h hosts k d.0 in
    rw
      (
        same_account-left (record h { changes = host_removed }) h k (refl, refl, refl),
        different,
        erase_host-kept kept h hosts d.1,
      )
      refl

IsDistinct-drop :
    (kept : List HostInfo) (h : HostInfo) (hosts : List HostInfo)
    → IsDistinct (kept ++ h ∷ hosts)
    → IsDistinct (kept ++ hosts)
IsDistinct-drop [] h hosts d = d.1
IsDistinct-drop (k ∷ kept) h hosts d =
    ((find_host-split kept h hosts k d.0).1, IsDistinct-drop kept h hosts d.1)

removals-remaining_hosts :
    (new_hosts kept hosts : List HostInfo)
    → IsDistinct (kept ++ hosts)
    → apply_changes (removals new_hosts hosts) (kept ++ hosts)
      ≡ kept ++ remaining_hosts new_hosts hosts
unfolding removals remaining_hosts apply_changes apply_change
removals-remaining_hosts new_hosts kept [] d = refl
removals-remaining_hosts new_hosts kept (h ∷ hosts) d =
    elim (Option-cases (find_host new_hosts h)) [
      | inl gone ↦
          rw (removals, remaining_hosts, gone)
            (ap (apply_changes (removals new_hosts hosts)) (erase_host-kept kept h hosts d)
              ∙ removals-remaining_hosts new_hosts kept hosts (IsDistinct-drop kept h hosts d))
      | inr (found, there) ↦
          rw (removals, remaining_hosts, there)
            (ap (apply_changes (removals new_hosts hosts)) (sym (append_assoc kept (h ∷ []) hosts))
              ∙ removals-remaining_hosts new_hosts (kept ++ h ∷ []) hosts
                  (subst IsDistinct (sym (append_assoc kept (h ∷ []) hosts)) d)
              ∙ append_assoc kept (h ∷ []) (remaining_hosts new_hosts hosts))
    ]

rows-IsUnchanged : (rows : List HostRow) → All IsUnchanged (map host_of_row rows)
unfolding host_of_row
rows-IsUnchanged [] = tt
rows-IsUnchanged (row ∷ rows) = (refl, rows-IsUnchanged rows)

pub available-IsUnchanged :
    (table : List HostRow) (throws_after : Option ℕ)
    → All IsUnchanged (get_available_hosts table throws_after)
unfolding get_available_hosts
available-IsUnchanged table none = rows-IsUnchanged table
available-IsUnchanged table (some n) = rows-IsUnchanged (take n table)

pub Seen-monitor_round :
    (previous new_hosts : List HostInfo)
    → IsDistinct previous
    → All IsUnchanged new_hosts
    → Seen previous
        (notice_hosts new_hosts (record { previous_hosts = previous; host_container = [] }))
unfolding apply_changes
Seen-monitor_round previous new_hosts distinct unchanged =
    notice_hosts-Seen previous new_hosts _ unchanged
      (record { follows = refl; distinct = distinct })

pub apply_changes-monitor_round :
    (previous new_hosts : List HostInfo)
    → IsDistinct previous
    → All IsUnchanged new_hosts
    → apply_changes (monitor_round new_hosts previous).host_container previous
      ≡ (monitor_round new_hosts previous).previous_hosts
unfolding monitor_round
apply_changes-monitor_round previous new_hosts distinct unchanged =
    let seen = Seen-monitor_round previous new_hosts distinct unchanged in
    apply_changes-append _ (removals new_hosts _) previous
    ∙ ap (apply_changes (removals new_hosts _)) seen.follows
    ∙ removals-remaining_hosts new_hosts [] _ seen.distinct

-- A round of the monitor, over what `get_available_hosts` returned, appends to the container exactly
-- the changes that the launcher needs: if the streams were those of the previous hosts, of different
-- accounts, they are those of the hosts that the monitor now remembers, in the same order.
pub launcher_mirrors_monitor :
    (table : List HostRow) (throws_after : Option ℕ) (previous : List HostInfo) (l : Launcher)
    → IsDistinct previous
    → hosts_of l.websocks ≡ previous
    → hosts_of
        (websock_launcher
          (monitor_round (get_available_hosts table throws_after) previous).host_container
          l).websocks
      ≡ (monitor_round (get_available_hosts table throws_after) previous).previous_hosts
launcher_mirrors_monitor table throws_after previous l distinct same =
    hosts_of-websock_launcher _ l
    ∙ ap (apply_changes _) same
    ∙ apply_changes-monitor_round previous _ distinct (available-IsUnchanged table throws_after)
